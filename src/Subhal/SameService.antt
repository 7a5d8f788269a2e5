-- ===== src/Subhal/SameService.antt =====
-- The service of the sub-HAL (sensors/multihal/common/SensorsSubHal.cpp) and the AIDL service
-- (sensors/aidl/SensorsHalAidl.cpp): what they make of the available sensors, and the calls for direct channels.
use bosch_mems_android_hal.Common.{
  ℕ, ◌/◌, ◌^◌, bit_and, ◌≡◌, refl, inl, inr, Bool, true, false, ◌&&◌, List, [], ◌∷◌, ◌++◌, Option,
  lookup, ◌==◌, Bool-cases, Option-cases,
}
use bosch_mems_android_hal.Core.DirectChannel.{
  DirectChannel, Platform, Error, make_channel, is_valid, get_error,
}
use bosch_mems_android_hal.Aidl.Types.{Interface, has_flag, AStatus}
use bosch_mems_android_hal.Aidl.Sensor as AidlSensor
use bosch_mems_android_hal.Aidl.Service.{SensorsHalAidl}
use bosch_mems_android_hal.Aidl.Service as AidlService
use bosch_mems_android_hal.Aidl.ServiceChannels.{RateLevel, is_stop, all_sensors}
use bosch_mems_android_hal.Aidl.ServiceChannels as AidlChannels
use bosch_mems_android_hal.Aidl.Linked.Requests.{ServiceRequest, registers, unregisters, configures}
use bosch_mems_android_hal.Aidl.DirectBuffer.{SensorsEvent}
use bosch_mems_android_hal.Multihal.Types.{Result, is_ok}
use bosch_mems_android_hal.Subhal.Service.{SensorsSubHal, Output}
use bosch_mems_android_hal.Subhal.Channels.{
  rate_period, channel_error, configure, failed, config_sensor, config_direct_report,
  register_direct_channel, unregister_direct_channel,
}
use bosch_mems_android_hal.Subhal.Sensor as SubhalSensor
use bosch_mems_android_hal.Subhal.Same.{forget, add-same}
use bosch_mems_android_hal.Subhal.SameRun.{is_fine}
use bosch_mems_android_hal.Subhal.SameMaps.{
  forget_map, hal_calls, lookup-forget_map, hal_calls-append, at_sensor-same, remove_each-same,
  stop_each-same,
}

period-same :
    (api : Interface) (max : ℕ) (rate : RateLevel)
    → rate_period api max rate ≡ AidlChannels.period_of api max rate
unfolding rate_period AidlChannels.period_of
period-same api max RateLevel.stop = refl
period-same api max RateLevel.normal = refl
period-same api max RateLevel.fast = refl
period-same api max RateLevel.very_fast = refl
period-same api max (RateLevel.other n) = refl

not_ok : (e : Error) → is_ok (channel_error e) ≡ false
unfolding channel_error
not_ok Error.no_error = refl
not_ok Error.no_init = refl
not_ok Error.bad_value = refl
not_ok Error.no_memory = refl

module _ {F : Type 0} where
  -- The sub-HAL has no event queue and no wake lock of its own.
  abbrev pub forget_service : SensorsHalAidl F → SensorsSubHal F (SensorsEvent F)
  forget_service v = record {
    report_latency_ns = v.report_latency_ns;
    sensors = forget_map v.sensors;
    next_handle = v.next_handle;
    direct_channels = v.direct_channels;
    next_channel_handle = v.next_channel_handle;
  }

  -- A call of the AIDL service: whether it succeeds, and what it does.
  pub aidl_call :
      Interface
      → ServiceRequest F
      → SensorsHalAidl F
      → Bool × SensorsHalAidl F × List (AidlService.Output F)
  aidl_call api (registers pf is_ashmem fd bytes) v =
      let (status, token, v') = AidlChannels.register_direct_channel pf is_ashmem fd bytes v in
      (is_fine status, v', [])
  aidl_call api (unregisters ch) v =
      let (v', out) = AidlChannels.unregister_direct_channel ch v in (true, v', out)
  aidl_call api (configures h ch rate) v =
      let (status, token, v', out) = AidlChannels.config_direct_report api h ch rate v in
      (is_fine status, v', out)

  -- The same call of the sub-HAL, where the description of the memory is accepted.
  unfoldable pub subhal_call :
      Interface
      → ServiceRequest F
      → SensorsSubHal F (SensorsEvent F)
      → Bool × SensorsSubHal F (SensorsEvent F) × List (Output F)
  subhal_call api (registers pf is_ashmem fd bytes) v =
      let (result, token, v') = register_direct_channel pf is_ashmem true fd bytes v in
      (is_ok result, v', [])
  subhal_call api (unregisters ch) v =
      let (result, v', out) = unregister_direct_channel ch v in (is_ok result, v', out)
  subhal_call api (configures h ch rate) v =
      let (result, token, v', out) = config_direct_report api h ch rate v in (is_ok result, v', out)

  pub aidl_calls :
      Interface
      → List (ServiceRequest F)
      → SensorsHalAidl F
      → List Bool × SensorsHalAidl F × List (AidlService.Output F)
  unfolding aidl_call
  aidl_calls api [] v = ([], v, [])
  aidl_calls api (r ∷ rs) v =
      let (fine, v1, out) = aidl_call api r v in
      let (others, v2, more) = aidl_calls api rs v1 in (fine ∷ others, v2, out ++ more)

  unfoldable pub subhal_calls :
      Interface
      → List (ServiceRequest F)
      → SensorsSubHal F (SensorsEvent F)
      → List Bool × SensorsSubHal F (SensorsEvent F) × List (Output F)
  unfolding subhal_call
  subhal_calls api [] v = ([], v, [])
  subhal_calls api (r ∷ rs) v =
      let (fine, v1, out) = subhal_call api r v in
      let (others, v2, more) = subhal_calls api rs v1 in (fine ∷ others, v2, out ++ more)

  abbrev IsSame : Interface → ServiceRequest F → SensorsHalAidl F → Type 0
  IsSame api r v =
      let (fine, v', out) = aidl_call api r v in
      subhal_call api r (forget_service v) ≡ (fine, forget_service v', hal_calls out)

  register-IsSame :
      (api : Interface) (pf : Platform (SensorsEvent F)) (is_ashmem : Bool) (fd bytes : ℕ)
      (v : SensorsHalAidl F)
      → IsSame api (registers pf is_ashmem fd bytes) v
  unfolding aidl_call subhal_call register_direct_channel AidlChannels.register_direct_channel
  register-IsSame api pf false fd bytes v = refl
  register-IsSame api pf true fd bytes v = elim (Bool-cases (is_valid (make_channel pf fd bytes))) [
    | inl e ↦ rw e refl
    | inr e ↦ rw (e, not_ok (get_error (make_channel pf fd bytes))) refl
  ]

  unregister-IsSame :
      (api : Interface) (ch : ℕ) (v : SensorsHalAidl F) → IsSame api (unregisters ch) v
  unfolding aidl_call subhal_call unregister_direct_channel AidlChannels.unregister_direct_channel
  unregister-IsSame api ch v = elim (Option-cases (lookup ch v.direct_channels)) [
    | inl e ↦ rw (unregister_direct_channel, AidlChannels.unregister_direct_channel, e) refl
    | inr (c, e) ↦
        rw
          (
            unregister_direct_channel,
            AidlChannels.unregister_direct_channel,
            e,
            remove_each-same ch c.sensor_handles v.sensors,
          )
          refl
  ]

  -- What configDirectReport answers, in the two services.
  abbrev aidl_answer :
      AStatus × Option ℕ × SensorsHalAidl F × List (AidlService.Output F)
      → Bool × SensorsSubHal F (SensorsEvent F) × List (Output F)
  aidl_answer (status, token, v', out) = (is_fine status, forget_service v', hal_calls out)

  abbrev subhal_answer :
      Result × ℕ × SensorsSubHal F (SensorsEvent F) × List (Output F)
      → Bool × SensorsSubHal F (SensorsEvent F) × List (Output F)
  subhal_answer (result, token, v', out) = (is_ok result, v', out)

  config_sensor-same :
      (api : Interface) (h ch : ℕ) (rate : RateLevel) (c : DirectChannel (SensorsEvent F))
      (t : AidlSensor.Sensor F) (v : SensorsHalAidl F)
      → subhal_answer (config_sensor api h ch rate c (forget t) (forget_service v))
        ≡ aidl_answer (AidlChannels.config_sensor api h ch rate c t v)
  unfolding config_sensor failed AidlChannels.config_sensor AidlChannels.failed configure
      AidlChannels.configure
  config_sensor-same api h ch rate c t v =
      let flags = t.sensor_info.flags in
      let max = bit_and flags api.direct_report_mask / 2 ^ api.direct_report_shift in
      elim (Bool-cases (has_flag flags api.direct_channel_ashmem)) [
        | inr e ↦ rw e refl
        | inl e ↦ elim (Option-cases (AidlChannels.period_of api max rate)) [
          | inl p ↦ rw (e, period-same api max rate, p) refl
          | inr (period, p) ↦
              rw
                (
                  e,
                  period-same api max rate,
                  p,
                  at_sensor-same h (AidlSensor.add_direct_channel ch period)
                      (SubhalSensor.add_direct_channel ch period) v.sensors (add-same ch period),
                )
                refl
        ]
      ]

  config-same :
      (api : Interface) (h ch : ℕ) (rate : RateLevel) (v : SensorsHalAidl F)
      → subhal_answer (config_direct_report api h ch rate (forget_service v))
        ≡ aidl_answer (AidlChannels.config_direct_report api h ch rate v)
  unfolding config_direct_report failed AidlChannels.config_direct_report AidlChannels.failed
      AidlChannels.stop_all
  config-same api h ch rate v = elim (Option-cases (lookup ch v.direct_channels)) [
    | inl e ↦ rw (config_direct_report, AidlChannels.config_direct_report, e) refl
    | inr (c, e) ↦ elim (Bool-cases (h == all_sensors && is_stop rate)) [
      | inl s ↦
          rw
            (
              config_direct_report,
              AidlChannels.config_direct_report,
              e,
              s,
              stop_each-same ch c.sensor_handles c.rate_ns v.sensors,
            )
            refl
      | inr s ↦ elim (Option-cases (lookup h v.sensors)) [
        | inl n ↦
            rw
              (
                config_direct_report,
                AidlChannels.config_direct_report,
                e,
                s,
                lookup-forget_map h v.sensors,
                n,
              )
              refl
        | inr (t, n) ↦
            rw
              (
                config_direct_report,
                AidlChannels.config_direct_report,
                e,
                s,
                lookup-forget_map h v.sensors,
                n,
              )
              (config_sensor-same api h ch rate c t v)
      ]
    ]
  ]

  call-IsSame : (api : Interface) (r : ServiceRequest F) (v : SensorsHalAidl F) → IsSame api r v
  unfolding aidl_call subhal_call
  call-IsSame api (registers pf is_ashmem fd bytes) v = register-IsSame api pf is_ashmem fd bytes v
  call-IsSame api (unregisters ch) v = unregister-IsSame api ch v
  call-IsSame api (configures h ch rate) v = config-same api h ch rate v

  -- Calls of registerDirectChannel, unregisterDirectChannel and configDirectReport, one after another, where
  -- HIDL's library accepts each description of a memory: the sub-HAL's service and the AIDL service, started with
  -- the same sensors and channels, succeed in the same calls, make the sensors' ISensorHal the same calls in the same
  -- order, and end with the same sensors and the same channels.
  pub calls-match :
      (api : Interface) (rs : List (ServiceRequest F)) (v : SensorsHalAidl F)
      → let (fine, v', out) = aidl_calls api rs v in
        subhal_calls api rs (forget_service v) ≡ (fine, forget_service v', hal_calls out)
  unfolding aidl_calls subhal_calls
  calls-match api [] v = refl
  calls-match api (r ∷ rs) v =
      let (fine, v1, out) = aidl_call api r v in
      rw (call-IsSame api r v, calls-match api rs v1, hal_calls-append out (aidl_calls api rs v1).2)
        refl
