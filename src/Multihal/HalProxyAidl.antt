-- ===== src/Multihal/HalProxyAidl.antt =====
-- HalProxyAidl (sensors/multihal/aidl/HalProxyAidl.cpp): the calls of the AIDL interface, passed on to HalProxy. The
-- operation mode is the same in both interfaces. A failed assertion is `none`. `old` is convertToOldEvent.
use bosch_mems_android_hal.Common.{ℕ, ℤ, Bool, List, Option, none, some, map, values}
use bosch_mems_android_hal.Aidl.Placement.{◌>>=◌}
use bosch_mems_android_hal.Aidl.Reports.{OperationMode}
use bosch_mems_android_hal.Aidl.ServiceChannels.{RateLevel}
use bosch_mems_android_hal.Multihal.Types.{
  Result, ok, permission_denied, no_memory, bad_value, invalid_operation, Event, SubHal, Interface,
}
use bosch_mems_android_hal.Multihal.HalProxy.{HalProxy}
use bosch_mems_android_hal.Multihal.HalProxy
use bosch_mems_android_hal.Multihal.AidlTypes.{AidlEvent, Hidl, HidlEvent, InfoRest, AidlSensorInfo}
use bosch_mems_android_hal.Multihal.Convert.{convert_sensor_info, convert_to_hidl_event}

-- The exception codes, and ERROR_NO_MEMORY of the service.
pub data Status : Type 0 where
  status_ok ex_security error_no_memory ex_illegal_argument ex_unsupported_operation : Status

unfoldable pub result_to_a_status : Result → Status
result_to_a_status ok = status_ok
result_to_a_status permission_denied = ex_security
result_to_a_status no_memory = error_no_memory
result_to_a_status bad_value = ex_illegal_argument
result_to_a_status invalid_operation = ex_unsupported_operation

unfoldable pub convert_rate_level : RateLevel → Option RateLevel
convert_rate_level RateLevel.stop = some RateLevel.stop
convert_rate_level RateLevel.normal = some RateLevel.normal
convert_rate_level RateLevel.fast = some RateLevel.fast
convert_rate_level RateLevel.very_fast = some RateLevel.very_fast
convert_rate_level (RateLevel.other n) = none

unfoldable pub with_status : {T : Type 0} → Result × T → Status × T
unfolding result_to_a_status
with_status (result, t) = (result_to_a_status result, t)

unfoldable pub with_status_and : {T U : Type 0} → Result × T × U → Status × T × U
unfolding result_to_a_status
with_status_and (result, t, u) = (result_to_a_status result, t, u)

module _ {S P M : Type 0} (hal : SubHal S InfoRest P M) where
  abbrev Proxy : Type 0
  Proxy = HalProxy S InfoRest

  unfoldable pub activate : ℕ → Bool → Proxy → Status × Proxy
  activate h enabled p = with_status (HalProxy.activate hal h enabled p)

  unfoldable pub batch : ℕ → ℤ → ℤ → Proxy → Status × Proxy
  batch h period latency p = with_status (HalProxy.batch hal h period latency p)

  unfoldable pub flush : ℕ → Proxy → Status × Proxy
  flush h p = with_status (HalProxy.flush hal h p)

  unfoldable pub config_direct_report : ℕ → ℕ → RateLevel → Proxy → Option (Status × ℕ × Proxy)
  unfolding convert_rate_level
  config_direct_report h channel rate p = do
    r ← convert_rate_level rate
    some (with_status_and (HalProxy.config_direct_report hal h channel r p))

  unfoldable pub get_sensors_list : Proxy → List AidlSensorInfo
  get_sensors_list p = map convert_sensor_info (values p.sensors)

  -- The event is written to a fresh one.
  unfoldable pub inject_sensor_data :
      {U : Type 0}
      → Hidl U
      → (HidlEvent U → Event P)
      → HidlEvent U
      → Interface InfoRest
      → AidlEvent
      → Proxy
      → Option (Status × Proxy)
  inject_sensor_data hidl old fresh api e p = do
    h ← convert_to_hidl_event hidl e fresh
    some (with_status (HalProxy.inject_sensor_data hal api (old h) p))

  -- The memory is described by what the sub-HAL gets; its handle is released after the call.
  unfoldable pub register_direct_channel : M → Proxy → Status × ℕ × Proxy
  register_direct_channel mem p = with_status_and (HalProxy.register_direct_channel hal mem p)

  unfoldable pub unregister_direct_channel : ℕ → Proxy → Status × Proxy
  unregister_direct_channel channel p =
      with_status (HalProxy.unregister_direct_channel hal channel p)

  unfoldable pub set_operation_mode : OperationMode → Proxy → Status × Proxy
  set_operation_mode mode p = with_status (HalProxy.set_operation_mode hal mode p)
