-- ===== src/Hidl/Loops.antt =====
-- The switches and the loops over the sensors of a channel in sensors/2.X/Sensors.h: registerDirectChannel,
-- unregisterDirectChannel, configDirectReport and initializeBase. A request of a direct channel makes a sensor call its
-- ISensorHal only.
use bosch_mems_android_hal.Common.{
  ℕ, List, [], ◌∷◌, ◌++◌, Option, none, some, Map, map, lookup, insert, ltb, if◌then◌else◌,
}
use bosch_mems_android_hal.Core.DirectChannel.{DirectChannel, Error}
use bosch_mems_android_hal.Aidl.Types.{Interface}
use bosch_mems_android_hal.Aidl.ServiceChannels.{RateLevel}
use bosch_mems_android_hal.Multihal.Types.{Result, bad_value, no_memory, invalid_operation}
use bosch_mems_android_hal.Subhal.Sensor.{Sensor, remove_direct_channel, stop_direct_channel}
use bosch_mems_android_hal.Subhal.Service.{Output, to_hal}

-- The rate in nanoseconds, `none` where the call fails.
unfoldable pub rate_in_ns : Interface → ℕ → RateLevel → Option ℕ
rate_in_ns api max_rate RateLevel.stop = some 0
rate_in_ns api max_rate RateLevel.normal = some 20000000
rate_in_ns api max_rate RateLevel.fast = if ltb max_rate api.rate_fast then none else some 5000000
rate_in_ns api max_rate RateLevel.very_fast =
    if ltb max_rate api.rate_very_fast then none else some 1250000
rate_in_ns api max_rate (RateLevel.other n) = none

-- The answer for the error of a channel that is not valid.
unfoldable pub error_result : Error → Result
error_result Error.bad_value = bad_value
error_result Error.no_memory = no_memory
error_result Error.no_error = invalid_operation
error_result Error.no_init = invalid_operation

module _ {F : Type 0} where
  -- The loop of unregisterDirectChannel over the handles of the channel.
  unfoldable pub remove_from_sensors :
      ℕ → List ℕ → Map (Sensor F) → Map (Sensor F) × List (Output F)
  remove_from_sensors ch [] m = (m, [])
  remove_from_sensors ch (h ∷ hs) m = elim (lookup h m) [
    | none ↦ remove_from_sensors ch hs m
    | some s ↦
        let (s', effects) = remove_direct_channel ch s in
        let (m', out) = remove_from_sensors ch hs (insert h s' m) in
        (m', map (to_hal h) effects ++ out)
  ]

  -- The loop of configDirectReport for the handle -1.
  unfoldable pub stop_sensors :
      ℕ → List ℕ → Map ℕ → Map (Sensor F) → Map ℕ × Map (Sensor F) × List (Output F)
  stop_sensors ch [] rates m = (rates, m, [])
  stop_sensors ch (h ∷ hs) rates m = elim (lookup h m) [
    | none ↦ stop_sensors ch hs rates m
    | some s ↦
        let (s', effects) = stop_direct_channel ch s in
        let (rates', m', out) = stop_sensors ch hs (insert h 0 rates) (insert h s' m) in
        (rates', m', map (to_hal h) effects ++ out)
  ]

  -- The loop of initializeBase over all channels.
  unfoldable pub remove_channels :
      {E : Type 0} → Map (DirectChannel E) → Map (Sensor F) → Map (Sensor F) × List (Output F)
  unfolding remove_from_sensors
  remove_channels [] m = (m, [])
  remove_channels ((ch, c) ∷ cs) m =
      let (m1, out) = remove_from_sensors ch c.sensor_handles m in
      let (m2, more) = remove_channels cs m1 in (m2, out ++ more)
