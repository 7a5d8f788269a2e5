-- ===== src/Aidl/ServiceChannels.antt =====
-- registerDirectChannel, unregisterDirectChannel, configDirectReport and initialize of
-- sensors/aidl/SensorsHalAidl.cpp. The requests of a direct channel make a sensor call its ISensorHal only, so
-- what they do is put out as it is. mNextChannelHandle is taken to stay below 2 ^ 31.
use bosch_mems_android_hal.Common.{
  ℕ, ◌+◌, ◌-◌, ◌^◌, ◌/◌, Bool, true, false, not, ◌&&◌, List, [], ◌∷◌, ◌++◌, Option, none, some, Map,
  lookup, insert, erase, ltb, ◌==◌, bit_and, if◌then◌else◌, FloatOps,
}
use bosch_mems_android_hal.Common
use bosch_mems_android_hal.Aidl.Service
use bosch_mems_android_hal.Core.DirectChannel.{
  DirectChannel, Platform, make_channel, is_valid, get_error,
}
use bosch_mems_android_hal.Aidl.Types.{
  Interface, AStatus, ok, illegal_argument, service_error, has_flag,
}
use bosch_mems_android_hal.Aidl.Placement.{◌>>=◌}
use bosch_mems_android_hal.Aidl.Sensor.{
  Sensor, Effect, add_direct_channel, stop_direct_channel, remove_direct_channel,
}
use bosch_mems_android_hal.Aidl.DirectBuffer.{SensorsEvent}
use bosch_mems_android_hal.Aidl.Service.{SensorsHalAidl, Output, ServiceAnswers, tag, perform}

pub data RateLevel : Type 0 where
  stop normal fast very_fast : RateLevel
  other : ℕ → RateLevel

-- The handle -1.
abbrev pub all_sensors : ℕ
all_sensors = 2 ^ 32 - 1

abbrev pub is_stop : RateLevel → Bool
is_stop RateLevel.stop = true
is_stop _ = false

-- The switch over the rate, for a sensor whose flags allow `max_rate`.
unfoldable pub period_of : Interface → ℕ → RateLevel → Option ℕ
period_of api max_rate RateLevel.stop = some 0
period_of api max_rate RateLevel.normal = some 20000000
period_of api max_rate RateLevel.fast = if ltb max_rate api.rate_fast then none else some 5000000
period_of api max_rate RateLevel.very_fast =
    if ltb max_rate api.rate_very_fast then none else some 1250000
period_of api max_rate (RateLevel.other n) = none

abbrev pub max_rate_of : Interface → ℕ → ℕ
max_rate_of api flags = bit_and flags api.direct_report_mask / 2 ^ api.direct_report_shift

-- rateNs[h] = 0, where h is the handle of a sensor.
unfoldable pub rates_after : {A : Type 0} → Option A → ℕ → Map ℕ → Map ℕ
rates_after none h rates = rates
rates_after (some s) h rates = insert h 0 rates

module _ {F : Type 0} where
  -- A request to the sensor with handle h, if there is one.
  unfoldable pub at_sensor :
      ℕ
      → (Sensor F → Sensor F × List (Effect F))
      → Map (Sensor F)
      → Map (Sensor F) × List (Output F)
  at_sensor h f m = elim (lookup h m) [
    | none ↦ (m, [])
    | some s ↦ let (s', effects) = f s in (insert h s' m, tag h effects)
  ]

  -- The loop over the handles of a channel that is taken away.
  unfoldable pub remove_each : ℕ → List ℕ → Map (Sensor F) → Map (Sensor F) × List (Output F)
  remove_each ch [] m = (m, [])
  remove_each ch (h ∷ hs) m =
      let (m1, out) = at_sensor h (remove_direct_channel ch) m in
      let (m2, more) = remove_each ch hs m1 in (m2, out ++ more)

  -- The loop over the handles of a channel that is stopped.
  unfoldable pub stop_each :
      ℕ → List ℕ → Map ℕ → Map (Sensor F) → Map ℕ × Map (Sensor F) × List (Output F)
  stop_each ch [] rates m = (rates, m, [])
  stop_each ch (h ∷ hs) rates m =
      let rates1 = rates_after (lookup h m) h rates in
      let (m1, out) = at_sensor h (stop_direct_channel ch) m in
      let (rates2, m2, more) = stop_each ch hs rates1 m1 in (rates2, m2, out ++ more)

  unfoldable pub stop_all :
      ℕ → DirectChannel (SensorsEvent F) → SensorsHalAidl F → SensorsHalAidl F × List (Output F)
  stop_all ch c v =
      let (rates, m, out) = stop_each ch c.sensor_handles c.rate_ns v.sensors in
      (
        record v {
          sensors = m;
          direct_channels = insert ch (record c { rate_ns = rates }) v.direct_channels;
        },
        out,
      )

  -- The channel gets the period for the sensor, and the sensor gets the channel.
  unfoldable pub configure :
      ℕ
      → ℕ
      → ℕ
      → DirectChannel (SensorsEvent F)
      → SensorsHalAidl F
      → SensorsHalAidl F × List (Output F)
  configure h ch period c v =
      let c' = record c {
        rate_ns = insert h period c.rate_ns;
        sensor_handles = c.sensor_handles ++ h ∷ [];
      } in
      let (m, out) = at_sensor h (add_direct_channel ch period) v.sensors in
      (record v { sensors = m; direct_channels = insert ch c' v.direct_channels }, out)

  unfoldable pub failed : SensorsHalAidl F → AStatus × Option ℕ × SensorsHalAidl F × List (Output F)
  failed v = (illegal_argument, none, v, [])

  -- The answer, the report token where it is set, and what is done.
  unfoldable pub config_sensor :
      Interface
      → ℕ
      → ℕ
      → RateLevel
      → DirectChannel (SensorsEvent F)
      → Sensor F
      → SensorsHalAidl F
      → AStatus × Option ℕ × SensorsHalAidl F × List (Output F)
  unfolding failed
  config_sensor api h ch rate c s v =
      if has_flag s.sensor_info.flags api.direct_channel_ashmem
      then elim (period_of api (max_rate_of api s.sensor_info.flags) rate) [
        | none ↦ failed v
        | some period ↦ let (v', out) = configure h ch period c v in (ok, some h, v', out)
      ]
      else failed v

  unfoldable pub config_direct_report :
      Interface
      → ℕ
      → ℕ
      → RateLevel
      → SensorsHalAidl F
      → AStatus × Option ℕ × SensorsHalAidl F × List (Output F)
  unfolding failed
  config_direct_report api h ch rate v = elim (lookup ch v.direct_channels) [
    | none ↦ failed v
    | some c ↦
        if h == all_sensors && is_stop rate
        then (let (v', out) = stop_all ch c v in (ok, none, v', out))
        else elim (lookup h v.sensors) [
          | none ↦ failed v
          | some s ↦ config_sensor api h ch rate c s v
        ]
  ]

  -- `is_ashmem` is the test of the memory's type; fd and bytes describe the memory.
  unfoldable pub register_direct_channel :
      Platform (SensorsEvent F)
      → Bool
      → ℕ
      → ℕ
      → SensorsHalAidl F
      → AStatus × Option ℕ × SensorsHalAidl F
  register_direct_channel pf false fd bytes v = (illegal_argument, none, v)
  register_direct_channel pf true fd bytes v =
      let c = make_channel pf fd bytes in
      let ch = v.next_channel_handle in
      if is_valid c
      then (
        ok,
        some ch,
        record v { next_channel_handle = ch + 1; direct_channels = insert ch c v.direct_channels },
      )
      else (service_error (get_error c), none, v)

  unfoldable pub unregister_direct_channel :
      ℕ → SensorsHalAidl F → SensorsHalAidl F × List (Output F)
  unregister_direct_channel ch v = elim (lookup ch v.direct_channels) [
    | none ↦ (record v { direct_channels = erase ch v.direct_channels }, [])
    | some c ↦
        let (m, out) = remove_each ch c.sensor_handles v.sensors in
        (record v { sensors = m; direct_channels = erase ch v.direct_channels }, out)
  ]

  -- The loop of initialize over all channels.
  unfoldable pub remove_all :
      Map (DirectChannel (SensorsEvent F)) → Map (Sensor F) → Map (Sensor F) × List (Output F)
  remove_all [] m = (m, [])
  remove_all ((ch, c) ∷ cs) m =
      let (m1, out) = remove_each ch c.sensor_handles m in
      let (m2, more) = remove_all cs m1 in (m2, out ++ more)

module _ {F : Type 0} (ops : FloatOps F) (api : Interface) where
  -- The loop of initialize that disables the sensors, over their handles.
  unfoldable pub disable_each :
      ServiceAnswers F → List ℕ → SensorsHalAidl F → Option (SensorsHalAidl F × List (Output F))
  disable_each ans [] v = some (v, [])
  disable_each ans (h ∷ hs) v = do
    (status, v1, out) ← Service.activate ops api ans h false v
    (v2, more) ← disable_each ans hs v1
    some (v2, out ++ more)

  -- `has_callback`: the callback is not nullptr; `flag_made`: createEventFlag answers OK, and only then does
  -- it leave a flag.
  unfoldable pub initialize :
      ServiceAnswers F
      → Bool
      → Bool
      → SensorsHalAidl F
      → Option (AStatus × SensorsHalAidl F × List (Output F))
  unfolding disable_each
  initialize ans has_callback flag_made v = do
    (v1, out) ← disable_each ans (Common.keys v.sensors) v
    let (m, more) = remove_all v1.direct_channels v1.sensors
    some (
      if has_callback && flag_made then ok else illegal_argument,
      record v1 {
        has_event_queue = true;
        has_event_queue_flag = flag_made;
        sensors = m;
        direct_channels = [];
        read_wake_lock_queue_run = true;
      },
      out ++ more,
    )
