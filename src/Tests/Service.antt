-- ===== src/Tests/Service.antt =====
-- The theorems on the service of sensors/aidl at concrete values.
use mathlib.Core.List.{Memᴰ}
use bosch_mems_android_hal.Common.{
  ℕ, ◌+◌, ◌-◌, ◌≡◌, refl, subst, inl, inr, ltb, true, false, List, [], ◌∷◌, Option, none, some,
  Bytes, codes, lookup, Bool-cases, ◌==◌, arith,
}
use bosch_mems_android_hal.Core.DirectChannel.{DirectChannel, make_channel}
use bosch_mems_android_hal.Core.DirectChannel
use bosch_mems_android_hal.Aidl.Types.{Event}
use bosch_mems_android_hal.Aidl.Sensor
use bosch_mems_android_hal.Aidl.WakeLock.{
  WakeLock, WakeAnswers, count, update_wake_lock, no_wake_lock,
}
use bosch_mems_android_hal.Aidl.Outstanding.{
  Update, AllGranted, update_all, update_all-held, update_wake_lock-counts, AllIdle,
  update_all-releases,
}
use bosch_mems_android_hal.Aidl.DirectBuffer.{SensorsEvent, to_sensors_event}
use bosch_mems_android_hal.Aidl.Decimation.{
  stride, every, write_events, deliver_all, IsFrom, deliver_all-every,
}
use bosch_mems_android_hal.Aidl.Service.{SensorsHalAidl, get_sensors_list}
use bosch_mems_android_hal.Aidl.ServiceChannels.{all_sensors, normal, stop}
use bosch_mems_android_hal.Aidl.AddSensors.{
  Module, no_sensors, make_service, read_sensors_config_from_xml,
}
use bosch_mems_android_hal.Aidl.Linked.{IsLinked, Agree}
use bosch_mems_android_hal.Aidl.Linked.Requests.{
  ServiceRequest, registers, unregisters, configures, service_requests, service_requests-IsLinked,
}
use bosch_mems_android_hal.Aidl.Handles.{numbered, make_service-numbered}
use bosch_mems_android_hal.Tests.Values.{
  ops, api, accel_data, platform, event, sensors_event, busy_sensor,
}

abbrev wake_answers : WakeAnswers
wake_answers = record { written_at = 100; checked_at = 200; acquires = true; releases = true }

-- Two events are written, one is handled, and later the lock times out.
abbrev updates : List Update
updates =
    record { answers = wake_answers; written = 2; handled = 0 }
    ∷ record { answers = wake_answers; written = 0; handled = 1 }
    ∷ record { answers = record wake_answers { checked_at = 5000 }; written = 0; handled = 0 }
    ∷ []

update_all-held_example :
    let w' = update_all 1 updates no_wake_lock in
    w'.has_wake_lock ≡ ltb 0 w'.outstanding_wake_up_events
unfolding AllGranted
update_all-held_example =
    update_all-held 1 updates no_wake_lock (refl, refl, (refl, refl, (refl, refl, tt))) refl

abbrev held : WakeLock
held = record {
  outstanding_wake_up_events = 3;
  auto_release_wake_lock_time = 1100;
  has_wake_lock = true;
}

update_wake_lock-counts_example :
    (update_wake_lock 1 wake_answers 2 4 held).outstanding_wake_up_events ≡ 3 + 2 - 4
unfolding count
update_wake_lock-counts_example =
    update_wake_lock-counts 1 wake_answers 2 4 held (omega arith) (omega arith) (omega arith)

-- Nothing is handled, and the timeout passes.
abbrev timed_out : Update
timed_out = record { answers = record wake_answers { checked_at = 5000 }; written = 0; handled = 0 }

abbrev quiet_updates : List Update
quiet_updates = record { answers = wake_answers; written = 0; handled = 1 } ∷ timed_out ∷ []

update_all-releases_example :
    let w' = update_all 1 quiet_updates held in
    (w'.has_wake_lock ≡ false) × (w'.outstanding_wake_up_events ≡ 0)
unfolding AllGranted AllIdle
update_all-releases_example =
    update_all-releases 1 quiet_updates held timed_out (refl, refl, (refl, refl, tt))
      (refl, omega arith, (refl, omega arith, tt)) refl (Memᴰ.tail (Memᴰ.head refl)) (omega arith)

-- A channel at 20 ms for the sensor 1.
abbrev channel : DirectChannel (SensorsEvent ℕ)
channel = record {
  sensor_handles = 1 ∷ [];
  rate_ns = (1, 20000000) ∷ [];
  sample_count = [];
  error = DirectChannel.no_init;
  buffer = some (DirectChannel.make_buffer (sensors_event 0) 104 416);
  size = 416;
  base = 4096;
}

abbrev samples : List (Event ℕ)
samples = event 1 ∷ event 2 ∷ event 3 ∷ []

-- Samples at 10 ms: every second one is written.
deliver_all-every_example :
    (c' : DirectChannel (SensorsEvent ℕ)) × (deliver_all api 10000000 samples channel ≡ some c')
    × (c'.buffer
        ≡ some (
            write_events api
              (every api (stride 10000000 20000000) 0 samples)
              (DirectChannel.make_buffer (sensors_event 0) 104 416)))
unfolding IsFrom to_sensors_event stride
deliver_all-every_example =
    deliver_all-every api 1 10000000 20000000 0 samples
      (DirectChannel.make_buffer (sensors_event 0) 104 416) channel (omega arith) (omega arith)
      (omega arith) (omega arith) (omega arith) (omega arith)
      (record { listed = refl; rated = refl; passed = refl; buffered = refl })
      ((refl, (_, refl)), ((refl, (_, refl)), ((refl, (_, refl)), tt)))

abbrev parse : Bytes → Option (List (Module ℕ))
parse path = some (record { hal_name = codes "bosch-hal"; sensors = [] } ∷ [])

make_service-numbered_example :
    (v : SensorsHalAidl ℕ) × (make_service ops api parse (accel_data ∷ accel_data ∷ []) ≡ some v)
    × (get_sensors_list v.sensors ≡ numbered ops api 1 (accel_data ∷ accel_data ∷ []))
    × IsLinked v
unfolding read_sensors_config_from_xml
make_service-numbered_example =
    make_service-numbered ops api parse [] (accel_data ∷ accel_data ∷ []) refl

-- A service with one sensor.
abbrev service : SensorsHalAidl ℕ
service = record no_sensors { next_handle = 2; sensors = (1, busy_sensor) ∷ [] }

service-IsLinked : IsLinked service
unfolding Agree
service-IsLinked = record { agree = agree; covered = λ ch c e. cc; fresh = λ ch h. refl }
  where
    agree :
        (ch h : ℕ) (s : Sensor.Sensor ℕ)
        → lookup h service.sensors ≡ some s
        → lookup ch s.direct_channels ≡ none
    agree ch h s e = elim (Bool-cases (1 == h)) [
      | inl q ↦
          let is : some busy_sensor ≡ some s = rw q at e in
          let same : busy_sensor ≡ s = cc in
          subst (λ t. lookup ch t.direct_channels ≡ none) same refl
      | inr q ↦ let no : none ≡ some s = rw q at e in cc
    ]

-- Two channels for the sensor; one is removed, the other stopped.
abbrev history : List (ServiceRequest ℕ)
history =
    registers platform true 5 416
    ∷ registers platform true 6 416
    ∷ configures 1 1 normal
    ∷ configures 1 2 normal
    ∷ unregisters 1
    ∷ configures all_sensors 2 stop
    ∷ []

service_requests-IsLinked_example : IsLinked (service_requests api history service)
service_requests-IsLinked_example = service_requests-IsLinked api history service service-IsLinked
