-- ===== src/Multihal/HalProxy.antt =====
-- HalProxy of sensors/multihal/2.X/HalProxy.{h,cpp}: the state for the routing, and the calls that it passes on to
-- the sub-HALs. A map in the order of the handles is one in the order of the int32_t where there are at most
-- 128 sub-HALs.
use bosch_mems_android_hal.Common.{
  ℕ, zero, suc, ℤ, Bool, true, false, not, ◌&&◌, List, [], ◌∷◌, Option, none, some, Map, length,
  get_elem?, set, values, ltb, ◌==◌, if◌then◌else◌,
}
use bosch_mems_android_hal.Aidl.Reports.{OperationMode}
use bosch_mems_android_hal.Aidl.ServiceChannels.{RateLevel, is_stop, all_sensors}
use bosch_mems_android_hal.Multihal.Types.{
  Result, ok, bad_value, invalid_operation, is_ok, SensorInfo, Event, SubHal, Interface,
}
use bosch_mems_android_hal.Multihal.Handles.{extract_sub_hal_index, clear_sub_hal_index}

-- mDirectChannelSubHal is the place of the sub-HAL.
pub record HalProxy (S R : Type 0) : Type 0 where
  pub sub_hal_list : List S
  pub sensors : Map (SensorInfo R)
  pub dynamic_sensors : Map (SensorInfo R)
  pub current_operation_mode : OperationMode
  pub direct_channel_sub_hal : Option ℕ

abbrev is_normal : OperationMode → Bool
is_normal OperationMode.normal = true
is_normal OperationMode.data_injection = false

module _ {S R : Type 0} where
  unfoldable pub is_sub_hal_index_valid : ℕ → HalProxy S R → Bool
  is_sub_hal_index_valid h p = ltb (extract_sub_hal_index h) (length p.sub_hal_list)

  -- A call of the sub-HAL at a place.
  unfoldable pub at_place : ℕ → (S → Result × S) → HalProxy S R → Result × HalProxy S R
  at_place i f p = elim (get_elem? p.sub_hal_list i) [
    | none ↦ (bad_value, p)
    | some hal ↦
        let (result, hal') = f hal in
        (result, record p { sub_hal_list = set p.sub_hal_list i hal' })
  ]

  -- isSubHalIndexValid, then getSubHalForSensorHandle.
  unfoldable pub routed : ℕ → (S → Result × S) → HalProxy S R → Result × HalProxy S R
  unfolding is_sub_hal_index_valid at_place
  routed h f p =
      if not (is_sub_hal_index_valid h p)
      then (bad_value, p)
      else at_place (extract_sub_hal_index h) f p

  unfoldable pub get_sensors_list_2_1 : HalProxy S R → List (SensorInfo R)
  get_sensors_list_2_1 p = values p.sensors

module _ {S R P M : Type 0} (hal : SubHal S R P M) where
  unfoldable pub activate : ℕ → Bool → HalProxy S R → Result × HalProxy S R
  activate h enabled = routed h (hal.activate (clear_sub_hal_index h) enabled)

  unfoldable pub batch : ℕ → ℤ → ℤ → HalProxy S R → Result × HalProxy S R
  batch h period latency = routed h (hal.batch (clear_sub_hal_index h) period latency)

  unfoldable pub flush : ℕ → HalProxy S R → Result × HalProxy S R
  flush h = routed h (hal.flush (clear_sub_hal_index h))

  unfoldable pub inject_sensor_data : Interface R → Event P → HalProxy S R → Result × HalProxy S R
  inject_sensor_data api e p =
      if is_normal p.current_operation_mode && not (e.sensor_type == api.type_additional_info)
      then (bad_value, p)
      else routed e.sensor_handle
          (hal.inject_sensor_data
            (record e { sensor_handle = clear_sub_hal_index e.sensor_handle }))
          p

  -- The loop that sets the mode, up to the first failure: the result, subHalIndex and the sub-HALs.
  unfoldable pub set_modes : OperationMode → List S → Result × ℕ × List S
  set_modes mode [] = (ok, 0, [])
  set_modes mode (s ∷ ss) =
      let (result, s') = hal.set_operation_mode mode s in
      let (result', i, ss') = set_modes mode ss in
      if is_ok result then (result', suc i, s' ∷ ss') else (result, 0, s' ∷ ss)

  -- The loop that resets the first n.
  unfoldable pub reset_modes : OperationMode → ℕ → List S → List S
  reset_modes mode n [] = []
  reset_modes mode zero (s ∷ ss) = s ∷ ss
  reset_modes mode (suc n) (s ∷ ss) = (hal.set_operation_mode mode s).1 ∷ reset_modes mode n ss

  unfoldable pub set_operation_mode : OperationMode → HalProxy S R → Result × HalProxy S R
  unfolding set_modes reset_modes
  set_operation_mode mode p =
      let (result, i, hals) = set_modes mode p.sub_hal_list in
      if is_ok result
      then (result, record p { sub_hal_list = hals; current_operation_mode = mode })
      else (result, record p { sub_hal_list = reset_modes p.current_operation_mode i hals })

  -- A call of the sub-HAL for direct channels, whose answer has a handle or token, -1 where it fails.
  unfoldable pub at_direct : (S → Result × ℕ × S) → HalProxy S R → Result × ℕ × HalProxy S R
  at_direct f p = elim p.direct_channel_sub_hal [
    | none ↦ (invalid_operation, all_sensors, p)
    | some i ↦ elim (get_elem? p.sub_hal_list i) [
      | none ↦ (invalid_operation, all_sensors, p)
      | some s ↦
          let (result, handle, s') = f s in
          (result, handle, record p { sub_hal_list = set p.sub_hal_list i s' })
    ]
  ]

  unfoldable pub register_direct_channel : M → HalProxy S R → Result × ℕ × HalProxy S R
  register_direct_channel mem = at_direct (hal.register_direct_channel mem)

  unfoldable pub unregister_direct_channel : ℕ → HalProxy S R → Result × HalProxy S R
  unregister_direct_channel channel p = elim p.direct_channel_sub_hal [
    | none ↦ (invalid_operation, p)
    | some i ↦ at_place i (hal.unregister_direct_channel channel) p
  ]

  -- A handle of -1 is for all sensors, and stands for itself.
  unfoldable pub config_direct_report : ℕ → ℕ → RateLevel → HalProxy S R → Result × ℕ × HalProxy S R
  config_direct_report h channel rate p = elim p.direct_channel_sub_hal [
    | none ↦ (invalid_operation, all_sensors, p)
    | some i ↦
        if h == all_sensors && not (is_stop rate)
        then (bad_value, all_sensors, p)
        else at_direct
            (hal.config_direct_report (if h == all_sensors then h else clear_sub_hal_index h)
              channel rate)
            p
  ]
