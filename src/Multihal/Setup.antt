-- ===== src/Multihal/Setup.antt =====
-- initializeSensorList, setDirectChannelFlags, the lists of sensors and the dynamic sensors of
-- sensors/multihal/2.X/HalProxy.cpp. The sub-HALs are loaded by the dynamic linker: the list of them is given.
use bosch_mems_android_hal.Common.{
  ℕ, suc, ◌-◌, ◌^◌, Bool, true, false, ◌&&◌, List, [], ◌∷◌, Option, none, some, Map, lookup, insert,
  erase, ◌==◌, if◌then◌else◌, bit_and,
}
use bosch_mems_android_hal.Aidl.Types.{has_flag}
use bosch_mems_android_hal.Aidl.Reports.{OperationMode}
use bosch_mems_android_hal.Multihal.Types.{SensorInfo, SubHal, Interface}
use bosch_mems_android_hal.Multihal.Handles.{set_sub_hal_index, sub_hal_index_is_clear}
use bosch_mems_android_hal.Multihal.HalProxy.{HalProxy}

module _ {R : Type 0} (api : Interface R) where
  unfoldable pub without_direct : SensorInfo R → SensorInfo R
  without_direct info = record info { flags = bit_and info.flags (2 ^ 32 - 1 - api.direct_mask) }

  -- The info that is kept, and the sub-HAL for direct channels, for a sensor of the sub-HAL at a place.
  unfoldable pub set_direct_channel_flags : ℕ → SensorInfo R → Option ℕ → SensorInfo R × Option ℕ
  unfolding without_direct
  set_direct_channel_flags i info none =
      if has_flag info.flags api.direct_mask then (info, some i) else (info, none)
  set_direct_channel_flags i info (some j) =
      if i == j then (info, some j) else (without_direct info, some j)

  -- One sensor of the sub-HAL at a place.
  unfoldable pub add_sensor :
      ℕ → SensorInfo R → Map (SensorInfo R) × Option ℕ → Map (SensorInfo R) × Option ℕ
  unfolding set_direct_channel_flags
  add_sensor i info (sensors, direct) =
      if sub_hal_index_is_clear info.sensor_handle
      then (let h = set_sub_hal_index info.sensor_handle i in
          let (info', direct') =
            set_direct_channel_flags i (record info { sensor_handle = h }) direct in
          (insert h info' sensors, direct'))
      else (sensors, direct)

  unfoldable pub add_list :
      ℕ → List (SensorInfo R) → Map (SensorInfo R) × Option ℕ → Map (SensorInfo R) × Option ℕ
  unfolding add_sensor
  add_list i [] acc = acc
  add_list i (info ∷ infos) acc = add_list i infos (add_sensor i info acc)

  unfoldable pub or_none : Option (List (SensorInfo R)) → List (SensorInfo R)
  or_none none = []
  or_none (some infos) = infos

  -- The loop over the sub-HALs, from place i on; where the transaction fails, there is no list.
  unfoldable pub initialize_sensor_list :
      {S : Type 0}
      → (S → Option (List (SensorInfo R)))
      → ℕ
      → List S
      → Map (SensorInfo R) × Option ℕ
      → Map (SensorInfo R) × Option ℕ
  unfolding add_list or_none
  initialize_sensor_list list_of i [] acc = acc
  initialize_sensor_list list_of i (s ∷ ss) acc =
      initialize_sensor_list list_of (suc i) ss (add_list i (or_none (list_of s)) acc)

  unfoldable pub make_hal_proxy : {S P M : Type 0} → SubHal S R P M → List S → HalProxy S R
  unfolding initialize_sensor_list
  make_hal_proxy hal hals =
      let (sensors, direct) = initialize_sensor_list hal.get_sensors_list 0 hals ([], none) in
      record {
        sub_hal_list = hals;
        sensors = sensors;
        dynamic_sensors = [];
        current_operation_mode = OperationMode.normal;
        direct_channel_sub_hal = direct;
      }

  -- getSensorsList of version 2.0, where `old` is convertToOldSensorInfo of the interface's library.
  unfoldable pub get_sensors_list : {O : Type 0} → (SensorInfo R → O) → Map (SensorInfo R) → List O
  get_sensors_list old [] = []
  get_sensors_list old ((h, info) ∷ m) =
      let rest = get_sensors_list old m in
      if info.sensor_type == api.type_hinge_angle then rest else old info ∷ rest

module _ {R : Type 0} where
  -- onDynamicSensorsConnected: the map, and what the framework is told.
  unfoldable pub connect :
      ℕ → List (SensorInfo R) → Map (SensorInfo R) → Map (SensorInfo R) × List (SensorInfo R)
  connect i [] m = (m, [])
  connect i (info ∷ infos) m =
      if sub_hal_index_is_clear info.sensor_handle
      then (let h = set_sub_hal_index info.sensor_handle i in
          let info' = record info { sensor_handle = h } in
          let (m', told) = connect i infos (insert h info' m) in (m', info' ∷ told))
      else connect i infos m

  -- onDynamicSensorsDisconnected.
  unfoldable pub disconnect : ℕ → List ℕ → Map (SensorInfo R) → Map (SensorInfo R) × List ℕ
  disconnect i [] m = (m, [])
  disconnect i (handle ∷ handles) m =
      let h = set_sub_hal_index handle i in
      let known : Bool = elim (lookup h m) [ none ↦ false | some info ↦ true ] in
      if sub_hal_index_is_clear handle && known
      then (let (m', told) = disconnect i handles (erase h m) in (m', h ∷ told))
      else disconnect i handles m

  module _ {S : Type 0} where
    unfoldable pub on_dynamic_sensors_connected :
        List (SensorInfo R) → ℕ → HalProxy S R → HalProxy S R × List (SensorInfo R)
    unfolding connect
    on_dynamic_sensors_connected infos i p =
        let (m, told) = connect i infos p.dynamic_sensors in
        (record p { dynamic_sensors = m }, told)

    unfoldable pub on_dynamic_sensors_disconnected :
        List ℕ → ℕ → HalProxy S R → HalProxy S R × List ℕ
    unfolding disconnect
    on_dynamic_sensors_disconnected handles i p =
        let (m, told) = disconnect i handles p.dynamic_sensors in
        (record p { dynamic_sensors = m }, told)
