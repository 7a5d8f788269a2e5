-- ===== src/Aidl/Linked/Requests.antt =====
-- Sequences of the calls that concern the direct channels.
use bosch_mems_android_hal.Common.{
  ℕ, ◌≡◌, inl, inr, Bool, ◌&&◌, List, [], ◌∷◌, some, lookup, ◌==◌, Bool-cases, Option-cases,
}
use bosch_mems_android_hal.Core.DirectChannel.{DirectChannel, Platform}
use bosch_mems_android_hal.Aidl.Types.{Interface, has_flag}
use bosch_mems_android_hal.Aidl.Sensor.{Sensor}
use bosch_mems_android_hal.Aidl.Linked.{IsLinked}
use bosch_mems_android_hal.Aidl.Linked.Configure.{configure-IsLinked, register-IsLinked}
use bosch_mems_android_hal.Aidl.Linked.Remove.{unregister-IsLinked}
use bosch_mems_android_hal.Aidl.Linked.Stop.{stop_all-IsLinked}
use bosch_mems_android_hal.Aidl.DirectBuffer.{SensorsEvent}
use bosch_mems_android_hal.Aidl.Service.{SensorsHalAidl}
use bosch_mems_android_hal.Aidl.ServiceChannels.{
  RateLevel, all_sensors, is_stop, period_of, max_rate_of, config_sensor, config_direct_report,
  register_direct_channel, unregister_direct_channel,
}

pub data ServiceRequest (F : Type 0) : Type 0 where
  registers : Platform (SensorsEvent F) → Bool → ℕ → ℕ → ServiceRequest F
  unregisters : ℕ → ServiceRequest F
  configures : ℕ → ℕ → RateLevel → ServiceRequest F

module _ {F : Type 0} (api : Interface) where
  config_sensor-IsLinked :
      (h ch : ℕ) (rate : RateLevel) (c : DirectChannel (SensorsEvent F)) (s : Sensor F)
      (v : SensorsHalAidl F)
      → lookup ch v.direct_channels ≡ some c
      → IsLinked v
      → (let (status, token, v', out) = config_sensor api h ch rate c s v in IsLinked v')
  unfolding config_sensor
  config_sensor-IsLinked h ch rate c s v e ok =
      elim (Bool-cases (has_flag s.sensor_info.flags api.direct_channel_ashmem)) [
        | inr q ↦ rw (config_sensor, q) ok
        | inl q ↦ elim (Option-cases (period_of api (max_rate_of api s.sensor_info.flags) rate)) [
          | inl n ↦ rw (config_sensor, q, n) ok
          | inr (period, is) ↦ rw (config_sensor, q, is) (configure-IsLinked h ch period c v e ok)
        ]
      ]

  config_direct_report-IsLinked :
      (h ch : ℕ) (rate : RateLevel) (v : SensorsHalAidl F)
      → IsLinked v
      → (let (status, token, v', out) = config_direct_report api h ch rate v in IsLinked v')
  unfolding config_direct_report
  config_direct_report-IsLinked h ch rate v ok = elim (Option-cases (lookup ch v.direct_channels)) [
    | inl n ↦ rw (config_direct_report, n) ok
    | inr (c, e) ↦ elim (Bool-cases (h == all_sensors && is_stop rate)) [
      | inl q ↦ rw (config_direct_report, e, q) (stop_all-IsLinked ch c v e ok)
      | inr q ↦ elim (Option-cases (lookup h v.sensors)) [
        | inl n ↦ rw (config_direct_report, e, q, n) ok
        | inr (s, is) ↦
            rw (config_direct_report, e, q, is) (config_sensor-IsLinked h ch rate c s v e ok)
      ]
    ]
  ]

  service_request : ServiceRequest F → SensorsHalAidl F → SensorsHalAidl F
  service_request (registers pf is_ashmem fd bytes) v =
      (register_direct_channel pf is_ashmem fd bytes v).2
  service_request (unregisters ch) v = (unregister_direct_channel ch v).0
  service_request (configures h ch rate) v = (config_direct_report api h ch rate v).2

  unfoldable pub service_requests : List (ServiceRequest F) → SensorsHalAidl F → SensorsHalAidl F
  unfolding service_request
  service_requests [] v = v
  service_requests (r ∷ rs) v = service_requests rs (service_request r v)

  -- After any sequence of registerDirectChannel, unregisterDirectChannel and configDirectReport, with any
  -- arguments and answers of the platform, on a service where it holds: every sensor has an entry for exactly
  -- the channels of the service that have a rate for it, with that rate and enabled unless it is 0; a channel
  -- has a rate for exactly the sensors of its list; and no channel has the next handle or a larger one.
  pub service_requests-IsLinked :
      (rs : List (ServiceRequest F)) (v : SensorsHalAidl F)
      → IsLinked v
      → IsLinked (service_requests rs v)
  unfolding service_requests service_request
  service_requests-IsLinked [] v ok = ok
  service_requests-IsLinked (registers pf is_ashmem fd bytes ∷ rs) v ok =
      service_requests-IsLinked rs _ (register-IsLinked pf is_ashmem fd bytes v ok)
  service_requests-IsLinked (unregisters ch ∷ rs) v ok =
      service_requests-IsLinked rs _ (unregister-IsLinked ch v ok)
  service_requests-IsLinked (configures h ch rate ∷ rs) v ok =
      service_requests-IsLinked rs _ (config_direct_report-IsLinked h ch rate v ok)
