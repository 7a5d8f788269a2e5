-- ===== src/Subhal/Channels.antt =====
-- registerDirectChannel, unregisterDirectChannel, configDirectReport and initialize of
-- sensors/multihal/common/SensorsSubHal.cpp. mNextChannelHandle is taken to stay below 2 ^ 31. The requests of a
-- direct channel make a sensor call its ISensorHal only, so what they do is put out as it is.
use bosch_mems_android_hal.Common.{
  ℕ, ◌+◌, ◌/◌, ◌^◌, Bool, ◌&&◌, List, [], ◌∷◌, ◌++◌, Option, none, some, Map, lookup, insert, erase,
  ltb, ◌==◌, bit_and, if◌then◌else◌,
}
use bosch_mems_android_hal.Core.DirectChannel.{
  DirectChannel, Platform, Error, make_channel, is_valid, get_error,
}
use bosch_mems_android_hal.Aidl.Types.{Interface, has_flag}
use bosch_mems_android_hal.Aidl.Sensor.{Effect}
use bosch_mems_android_hal.Aidl.ServiceChannels.{RateLevel, is_stop, all_sensors}
use bosch_mems_android_hal.Multihal.Types.{Result, ok, no_memory, bad_value, invalid_operation}
use bosch_mems_android_hal.Subhal.Sensor.{
  Sensor, add_direct_channel, stop_direct_channel, remove_direct_channel,
}
use bosch_mems_android_hal.Subhal.Service.{SensorsSubHal, Output, to_hal}

-- The switch over the rate: the period, for a sensor whose flags allow `max_rate`.
unfoldable pub rate_period : Interface → ℕ → RateLevel → Option ℕ
rate_period api max_rate RateLevel.stop = some 0
rate_period api max_rate RateLevel.normal = some 20000000
rate_period api max_rate RateLevel.fast = if ltb max_rate api.rate_fast then none else some 5000000
rate_period api max_rate RateLevel.very_fast =
    if ltb max_rate api.rate_very_fast then none else some 1250000
rate_period api max_rate (RateLevel.other n) = none

-- The switch over the error of an AshmemDirectChannel.
unfoldable pub channel_error : Error → Result
channel_error Error.bad_value = bad_value
channel_error Error.no_memory = no_memory
channel_error _ = invalid_operation

module _ {F : Type 0} where
  unfoldable pub tagged : ℕ → List (Effect F) → List (Output F)
  tagged h [] = []
  tagged h (e ∷ es) = to_hal h e ∷ tagged h es

  -- A request to the sensor with handle h, if there is one.
  unfoldable pub at_sensor :
      ℕ
      → (Sensor F → Sensor F × List (Effect F))
      → Map (Sensor F)
      → Map (Sensor F) × List (Output F)
  unfolding tagged
  at_sensor h f m = elim (lookup h m) [
    | none ↦ (m, [])
    | some s ↦ let (s', effects) = f s in (insert h s' m, tagged h effects)
  ]

  unfoldable pub remove_each : ℕ → List ℕ → Map (Sensor F) → Map (Sensor F) × List (Output F)
  unfolding at_sensor
  remove_each ch [] m = (m, [])
  remove_each ch (h ∷ hs) m =
      let (m1, out) = at_sensor h (remove_direct_channel ch) m in
      let (m2, more) = remove_each ch hs m1 in (m2, out ++ more)

  -- rateNs[h] = 0 for the handle of a sensor.
  unfoldable pub stopped_rate : Option (Sensor F) → ℕ → Map ℕ → Map ℕ
  stopped_rate none h rates = rates
  stopped_rate (some s) h rates = insert h 0 rates

  -- The loop for the handle -1.
  unfoldable pub stop_each :
      ℕ → List ℕ → Map ℕ → Map (Sensor F) → Map ℕ × Map (Sensor F) × List (Output F)
  unfolding at_sensor stopped_rate
  stop_each ch [] rates m = (rates, m, [])
  stop_each ch (h ∷ hs) rates m =
      let (m1, out) = at_sensor h (stop_direct_channel ch) m in
      let (rates2, m2, more) = stop_each ch hs (stopped_rate (lookup h m) h rates) m1 in
      (rates2, m2, out ++ more)

module _ {F E : Type 0} where
  -- The end of configDirectReport, with the period of the rate.
  unfoldable pub configure :
      ℕ → ℕ → ℕ → DirectChannel E → SensorsSubHal F E → SensorsSubHal F E × List (Output F)
  unfolding at_sensor
  configure h ch period c v =
      let c' = record c {
        rate_ns = insert h period c.rate_ns;
        sensor_handles = c.sensor_handles ++ h ∷ [];
      } in
      let (m, out) = at_sensor h (add_direct_channel ch period) v.sensors in
      (record v { sensors = m; direct_channels = insert ch c' v.direct_channels }, out)

  -- The answer of a call that fails: the token -1.
  unfoldable pub failed : SensorsSubHal F E → Result × ℕ × SensorsSubHal F E × List (Output F)
  failed v = (bad_value, all_sensors, v, [])

  unfoldable pub config_sensor :
      Interface
      → ℕ
      → ℕ
      → RateLevel
      → DirectChannel E
      → Sensor F
      → SensorsSubHal F E
      → Result × ℕ × SensorsSubHal F E × List (Output F)
  unfolding failed rate_period configure
  config_sensor api h ch rate c s v =
      let flags = s.sensor_info.flags in
      if has_flag flags api.direct_channel_ashmem
      then elim (rate_period api
          (bit_and flags api.direct_report_mask / 2 ^ api.direct_report_shift) rate) [
            | none ↦ failed v
            | some period ↦ let (v', out) = configure h ch period c v in (ok, h, v', out)
          ]
      else failed v

  unfoldable pub config_direct_report :
      Interface
      → ℕ
      → ℕ
      → RateLevel
      → SensorsSubHal F E
      → Result × ℕ × SensorsSubHal F E × List (Output F)
  unfolding failed config_sensor stop_each
  config_direct_report api h ch rate v = elim (lookup ch v.direct_channels) [
    | none ↦ failed v
    | some c ↦
        if h == all_sensors && is_stop rate
        then (let (rates, m, out) = stop_each ch c.sensor_handles c.rate_ns v.sensors in
            (
              ok,
              0,
              record v {
                sensors = m;
                direct_channels = insert ch (record c { rate_ns = rates }) v.direct_channels;
              },
              out,
            ))
        else elim (lookup h v.sensors) [
          | none ↦ failed v
          | some s ↦ config_sensor api h ch rate c s v
        ]
  ]

  -- `is_ashmem` is the test of the memory's type, and `described` whether convertFromSharedMemInfo accepts the
  -- memory; fd and bytes describe it.
  unfoldable pub register_direct_channel :
      Platform E → Bool → Bool → ℕ → ℕ → SensorsSubHal F E → Result × ℕ × SensorsSubHal F E
  unfolding channel_error
  register_direct_channel pf is_ashmem described fd bytes v =
      let c = make_channel pf fd bytes in
      let ch = v.next_channel_handle in
      if is_ashmem && described
      then if is_valid c
        then (
          ok,
          ch,
          record v {
            next_channel_handle = ch + 1;
            direct_channels = insert ch c v.direct_channels;
          },
        )
        else (channel_error (get_error c), all_sensors, v)
      else (bad_value, all_sensors, v)

  unfoldable pub unregister_direct_channel :
      ℕ → SensorsSubHal F E → Result × SensorsSubHal F E × List (Output F)
  unfolding remove_each
  unregister_direct_channel ch v = elim (lookup ch v.direct_channels) [
    | none ↦ (ok, record v { direct_channels = erase ch v.direct_channels }, [])
    | some c ↦
        let (m, out) = remove_each ch c.sensor_handles v.sensors in
        (ok, record v { sensors = m; direct_channels = erase ch v.direct_channels }, out)
  ]

  -- The loop of initialize over all channels.
  unfoldable pub remove_all :
      Map (DirectChannel E) → Map (Sensor F) → Map (Sensor F) × List (Output F)
  unfolding remove_each
  remove_all [] m = (m, [])
  remove_all ((ch, c) ∷ cs) m =
      let (m1, out) = remove_each ch c.sensor_handles m in
      let (m2, more) = remove_all cs m1 in (m2, out ++ more)

  -- The callback is saved; the result of setOperationMode is dropped.
  unfoldable pub initialize : SensorsSubHal F E → Result × SensorsSubHal F E × List (Output F)
  unfolding remove_all
  initialize v =
      let (m, out) = remove_all v.direct_channels v.sensors in
      (ok, record v { sensors = m; direct_channels = [] }, out)
