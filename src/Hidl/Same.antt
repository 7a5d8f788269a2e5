-- ===== src/Hidl/Same.antt =====
-- The HIDL service (sensors/2.X) and the sub-HAL (sensors/multihal/common): batch of a Sensor, the available sensors, and the
-- calls for direct channels.
use bosch_mems_android_hal.Common.{
  map, Map, insert, ℕ, ◌*◌, ◌/◌, ◌^◌, ◌≤◌, ℤ, pos, negsuc, ◌≡◌, refl, ap, ◌∙◌, inl, inr, Bool, true,
  false, ◌&&◌, List, [], ◌∷◌, ◌++◌, some, lookup, le→ltb, ◌==◌, bit_and, Bool-cases, Option-cases,
  arith,
}
use bosch_mems_android_hal.Core.DirectChannel.{
  DirectChannel, Platform, Error, make_channel, is_valid, get_error,
}
use bosch_mems_android_hal.Aidl.Types.{Interface, has_flag}
use bosch_mems_android_hal.Aidl.DirectBuffer.{SensorsEvent}
use bosch_mems_android_hal.Aidl.ServiceChannels.{RateLevel, is_stop, all_sensors}
use bosch_mems_android_hal.Aidl.Linked.Requests.{ServiceRequest, registers, unregisters, configures}
use bosch_mems_android_hal.Multihal.Types.{Result, is_ok}
use bosch_mems_android_hal.Subhal.Sensor.{Sensor}
use bosch_mems_android_hal.Subhal.Sensor as SubhalSensor
use bosch_mems_android_hal.Subhal.Service.{SensorsSubHal, Output, to_hal}
use bosch_mems_android_hal.Subhal.Channels as SubhalChannels
use bosch_mems_android_hal.Subhal.SameService.{subhal_call, subhal_calls}
use bosch_mems_android_hal.Hidl.Sensor.{in_delays, batch}
use bosch_mems_android_hal.Hidl.Service.{Sensors}
use bosch_mems_android_hal.Hidl.Loops.{rate_in_ns, error_result, remove_from_sensors, stop_sensors}
use bosch_mems_android_hal.Aidl.Sensor.{Effect}
use bosch_mems_android_hal.Hidl.Channels.{
  refused, config_sensor, config_direct_report, register_direct_channel, unregister_direct_channel,
}

scaled : (a b : ℕ) → a ≤ b → a * 1000 ≤ b * 1000
scaled a b l = omega (arith, l)

-- Where the delays are in order, the tests of this batch do what std::clamp does.
pub batch-clamp :
    {F : Type 0} (period latency : ℤ) (s : Sensor F)
    → s.sensor_info.min_delay_us ≤ s.sensor_info.max_delay_us
    → SubhalSensor.batch period latency s ≡ some (batch period latency s)
unfolding batch in_delays SubhalSensor.batch SubhalSensor.clamp
batch-clamp (negsuc n) latency s order = rw (le→ltb _ _ (scaled _ _ order)) refl
batch-clamp (pos p) latency s order = rw (le→ltb _ _ (scaled _ _ order)) refl

module _ {F E : Type 0} where
  -- What the sub-HAL has of the state.
  abbrev pub core : Sensors F E → SensorsSubHal F E
  core v = record {
    report_latency_ns = v.report_latency_ns;
    sensors = v.sensors;
    next_handle = v.next_handle;
    direct_channels = v.direct_channels;
    next_channel_handle = v.next_channel_handle;
  }

rates-same :
    (api : Interface) (max : ℕ) (rate : RateLevel)
    → SubhalChannels.rate_period api max rate ≡ rate_in_ns api max rate
unfolding SubhalChannels.rate_period rate_in_ns
rates-same api max RateLevel.stop = refl
rates-same api max RateLevel.normal = refl
rates-same api max RateLevel.fast = refl
rates-same api max RateLevel.very_fast = refl
rates-same api max (RateLevel.other n) = refl

errors-same : (e : Error) → SubhalChannels.channel_error e ≡ error_result e
unfolding SubhalChannels.channel_error error_result
errors-same Error.no_error = refl
errors-same Error.no_init = refl
errors-same Error.bad_value = refl
errors-same Error.no_memory = refl

module _ {F : Type 0} where
  tagged-map : (h : ℕ) (es : List (Effect F)) → SubhalChannels.tagged h es ≡ map (to_hal h) es
  unfolding SubhalChannels.tagged
  tagged-map h [] = refl
  tagged-map h (e ∷ es) = ap (λ l. to_hal h e ∷ l) (tagged-map h es)

  remove_from_sensors-same :
      (ch : ℕ) (hs : List ℕ) (m : Map (Sensor F))
      → SubhalChannels.remove_each ch hs m ≡ remove_from_sensors ch hs m
  unfolding SubhalChannels.remove_each SubhalChannels.at_sensor remove_from_sensors
  remove_from_sensors-same ch [] m = refl
  remove_from_sensors-same ch (h ∷ hs) m = elim (Option-cases (lookup h m)) [
    | inl e ↦
        rw (SubhalChannels.at_sensor, remove_from_sensors, e) (remove_from_sensors-same ch hs m)
    | inr (s, e) ↦
        let (s', effects) = SubhalSensor.remove_direct_channel ch s in
        rw
          (
            SubhalChannels.at_sensor,
            remove_from_sensors,
            e,
            tagged-map h effects,
            remove_from_sensors-same ch hs (insert h s' m),
          )
          refl
  ]

  stop_sensors-same :
      (ch : ℕ) (hs : List ℕ) (rates : Map ℕ) (m : Map (Sensor F))
      → SubhalChannels.stop_each ch hs rates m ≡ stop_sensors ch hs rates m
  unfolding SubhalChannels.stop_each SubhalChannels.at_sensor SubhalChannels.stopped_rate
      stop_sensors
  stop_sensors-same ch [] rates m = refl
  stop_sensors-same ch (h ∷ hs) rates m = elim (Option-cases (lookup h m)) [
    | inl e ↦ rw (SubhalChannels.at_sensor, stop_sensors, e) (stop_sensors-same ch hs rates m)
    | inr (s, e) ↦
        let (s', effects) = SubhalSensor.stop_direct_channel ch s in
        rw
          (
            SubhalChannels.at_sensor,
            stop_sensors,
            e,
            tagged-map h effects,
            stop_sensors-same ch hs (insert h 0 rates) (insert h s' m),
          )
          refl
  ]

  -- A call of the service, where the description of the memory is accepted: whether it succeeds, and what it does.
  pub hidl_call :
      Interface
      → ServiceRequest F
      → Sensors F (SensorsEvent F)
      → Bool × Sensors F (SensorsEvent F) × List (Output F)
  hidl_call api (registers pf is_ashmem fd bytes) v =
      let (result, token, v') = register_direct_channel pf is_ashmem true fd bytes v in
      (is_ok result, v', [])
  hidl_call api (unregisters ch) v =
      let (result, v', out) = unregister_direct_channel ch v in (is_ok result, v', out)
  hidl_call api (configures h ch rate) v =
      let (result, token, v', out) = config_direct_report api h ch rate v in (is_ok result, v', out)

  pub hidl_calls :
      Interface
      → List (ServiceRequest F)
      → Sensors F (SensorsEvent F)
      → List Bool × Sensors F (SensorsEvent F) × List (Output F)
  unfolding hidl_call
  hidl_calls api [] v = ([], v, [])
  hidl_calls api (r ∷ rs) v =
      let (fine, v1, out) = hidl_call api r v in
      let (others, v2, more) = hidl_calls api rs v1 in (fine ∷ others, v2, out ++ more)

  -- The rest of the state, which a call of the sub-HAL does not have.
  abbrev pub IsRestKept : Sensors F (SensorsEvent F) → Sensors F (SensorsEvent F) → Type 0
  IsRestKept v w =
      (w.has_event_queue ≡ v.has_event_queue)
      × (w.has_event_queue_flag ≡ v.has_event_queue_flag)
      × (w.wake_lock ≡ v.wake_lock)
      × (w.read_wake_lock_queue_run ≡ v.read_wake_lock_queue_run)

  abbrev IsSame : Interface → ServiceRequest F → Sensors F (SensorsEvent F) → Type 0
  IsSame api r v =
      let (fine, v', out) = hidl_call api r v in
      (subhal_call api r (core v) ≡ (fine, core v', out)) × IsRestKept v v'

  register-IsSame :
      (api : Interface) (pf : Platform (SensorsEvent F)) (is_ashmem : Bool) (fd bytes : ℕ)
      (v : Sensors F (SensorsEvent F))
      → IsSame api (registers pf is_ashmem fd bytes) v
  unfolding hidl_call subhal_call register_direct_channel SubhalChannels.register_direct_channel
  register-IsSame api pf false fd bytes v = (refl, (refl, refl, refl, refl))
  register-IsSame api pf true fd bytes v = elim (Bool-cases (is_valid (make_channel pf fd bytes))) [
    | inl e ↦ rw e (refl, (refl, refl, refl, refl))
    | inr e ↦
        rw (e, errors-same (get_error (make_channel pf fd bytes))) (refl, (refl, refl, refl, refl))
  ]

  unregister-IsSame :
      (api : Interface) (ch : ℕ) (v : Sensors F (SensorsEvent F)) → IsSame api (unregisters ch) v
  unfolding hidl_call subhal_call unregister_direct_channel SubhalChannels.unregister_direct_channel
  unregister-IsSame api ch v = elim (Option-cases (lookup ch v.direct_channels)) [
    | inl e ↦
        rw (unregister_direct_channel, SubhalChannels.unregister_direct_channel, e)
          (refl, (refl, refl, refl, refl))
    | inr (c, e) ↦
        rw
          (
            unregister_direct_channel,
            SubhalChannels.unregister_direct_channel,
            e,
            remove_from_sensors-same ch c.sensor_handles v.sensors,
          )
          (refl, (refl, refl, refl, refl))
  ]

  config_sensor-IsSame :
      (api : Interface) (h ch : ℕ) (rate : RateLevel) (c : DirectChannel (SensorsEvent F))
      (s : Sensor F) (v : Sensors F (SensorsEvent F))
      → lookup h v.sensors ≡ some s
      → let (result, token, v', out) = config_sensor api h ch rate c s v in
        (SubhalChannels.config_sensor api h ch rate c s (core v) ≡ (result, token, core v', out))
        × IsRestKept v v'
  unfolding config_sensor refused SubhalChannels.config_sensor SubhalChannels.failed
      SubhalChannels.configure SubhalChannels.at_sensor
  config_sensor-IsSame api h ch rate c s v found =
      let flags = s.sensor_info.flags in
      let max = bit_and flags api.direct_report_mask / 2 ^ api.direct_report_shift in
      elim (Bool-cases (has_flag flags api.direct_channel_ashmem)) [
        | inr e ↦ rw e (refl, (refl, refl, refl, refl))
        | inl e ↦ elim (Option-cases (rate_in_ns api max rate)) [
          | inl p ↦ rw (e, rates-same api max rate, p) (refl, (refl, refl, refl, refl))
          | inr (period, p) ↦
              rw
                (
                  e,
                  rates-same api max rate,
                  p,
                  SubhalChannels.at_sensor,
                  found,
                  tagged-map h (SubhalSensor.add_direct_channel ch period s).1,
                )
                (refl, (refl, refl, refl, refl))
        ]
      ]

  config-IsSame :
      (api : Interface) (h ch : ℕ) (rate : RateLevel) (v : Sensors F (SensorsEvent F))
      → let (result, token, v', out) = config_direct_report api h ch rate v in
        (SubhalChannels.config_direct_report api h ch rate (core v) ≡ (result, token, core v', out))
        × IsRestKept v v'
  unfolding config_direct_report refused SubhalChannels.config_direct_report SubhalChannels.failed
  config-IsSame api h ch rate v = elim (Option-cases (lookup ch v.direct_channels)) [
    | inl e ↦
        rw (config_direct_report, SubhalChannels.config_direct_report, e)
          (refl, (refl, refl, refl, refl))
    | inr (c, e) ↦ elim (Bool-cases (h == all_sensors && is_stop rate)) [
      | inl s ↦
          rw
            (
              config_direct_report,
              SubhalChannels.config_direct_report,
              e,
              s,
              stop_sensors-same ch c.sensor_handles c.rate_ns v.sensors,
            )
            (refl, (refl, refl, refl, refl))
      | inr s ↦ elim (Option-cases (lookup h v.sensors)) [
        | inl n ↦
            rw (config_direct_report, SubhalChannels.config_direct_report, e, s, n)
              (refl, (refl, refl, refl, refl))
        | inr (t, n) ↦
            rw (config_direct_report, SubhalChannels.config_direct_report, e, s, n)
              (config_sensor-IsSame api h ch rate c t v n)
      ]
    ]
  ]

  call-IsSame :
      (api : Interface) (r : ServiceRequest F) (v : Sensors F (SensorsEvent F)) → IsSame api r v
  unfolding hidl_call subhal_call
  call-IsSame api (registers pf is_ashmem fd bytes) v = register-IsSame api pf is_ashmem fd bytes v
  call-IsSame api (unregisters ch) v = unregister-IsSame api ch v
  call-IsSame api (configures h ch rate) v =
      let (same, kept) = config-IsSame api h ch rate v in
      (
        ap
            (λ (q : Result × ℕ × SensorsSubHal F (SensorsEvent F) × List (Output F)).
              (is_ok q.0, q.2, q.3))
            same,
        kept,
      )

  -- Calls of registerDirectChannel, unregisterDirectChannel and configDirectReport, one after another, where
  -- HIDL's library accepts each description of a memory: the HIDL service and the sub-HAL's, started with the same
  -- sensors and channels, succeed in the same calls, make the sensors' ISensorHal the same calls in the same order, and end
  -- with the same sensors and channels; the event queue and the wake lock of the HIDL service stay as they are.
  pub hidl_calls-match :
      (api : Interface) (rs : List (ServiceRequest F)) (v : Sensors F (SensorsEvent F))
      → let (fine, v', out) = hidl_calls api rs v in
        (subhal_calls api rs (core v) ≡ (fine, core v', out)) × IsRestKept v v'
  unfolding hidl_calls subhal_calls
  hidl_calls-match api [] v = (refl, (refl, refl, refl, refl))
  hidl_calls-match api (r ∷ rs) v =
      let (fine, v1, out) = hidl_call api r v in
      let (same, (q, f, w, t)) = call-IsSame api r v in
      let (matched, (q', f', w', t')) = hidl_calls-match api rs v1 in
      (rw (same, matched) refl, (q' ∙ q, f' ∙ f, w' ∙ w, t' ∙ t))
