-- ===== src/Tests/Hidl.antt =====
-- The theorems on the HIDL service of sensors/2.X at concrete values.
use bosch_mems_android_hal.Common.{ℕ, ◌≡◌, ◌↔◌, true, false, List, [], ◌∷◌, none}
use bosch_mems_android_hal.Aidl.Types.{Event}
use bosch_mems_android_hal.Aidl.WakeLock.{no_wake_lock}
use bosch_mems_android_hal.Aidl.Service.{ServiceAnswers}
use bosch_mems_android_hal.Aidl.ServiceChannels.{all_sensors, normal, stop}
use bosch_mems_android_hal.Aidl.DirectBuffer.{SensorsEvent}
use bosch_mems_android_hal.Aidl.Linked.Requests.{ServiceRequest, registers, unregisters, configures}
use bosch_mems_android_hal.Multihal.Types.{ok}
use bosch_mems_android_hal.Subhal.Same.{forget}
use bosch_mems_android_hal.Subhal.SameService.{subhal_calls}
use bosch_mems_android_hal.Hidl.Service.{Sensors, post_events}
use bosch_mems_android_hal.Hidl.Initialize.{initialize_base}
use bosch_mems_android_hal.Hidl.Same.{core, hidl_calls, IsRestKept, hidl_calls-match}
use bosch_mems_android_hal.Hidl.Started.{AllDisabled, initialize_base-starts}
use bosch_mems_android_hal.Tests.Values.{ops, api, platform, event, sensors_event, busy_sensor}

-- A service with one sensor, which is enabled.
abbrev service : Sensors ℕ (SensorsEvent ℕ)
service = record {
  has_event_queue = false;
  has_event_queue_flag = false;
  report_latency_ns = [];
  sensors = (1, forget busy_sensor) ∷ [];
  next_handle = 2;
  wake_lock = no_wake_lock;
  read_wake_lock_queue_run = false;
  direct_channels = [];
  next_channel_handle = 1;
}

abbrev calls : List (ServiceRequest ℕ)
calls =
    registers platform true 5 416
    ∷ configures 1 1 normal
    ∷ configures all_sensors 1 stop
    ∷ unregisters 1
    ∷ []

hidl_calls-match_example :
    let (fine, v', out) = hidl_calls api calls service in
    (subhal_calls api calls (core service) ≡ (fine, core v', out)) × IsRestKept service v'
hidl_calls-match_example = hidl_calls-match api calls service

abbrev to_event : Event ℕ → SensorsEvent ℕ
to_event e = sensors_event e.timestamp

-- The event flag cannot be made, and the queue takes the event.
abbrev answers : ServiceAnswers ℕ
answers = record {
  sensor = record { temperature = none; time = λ i. i };
  wake = record { written_at = 100; checked_at = 200; acquires = true; releases = true };
  accepts = λ n. true;
  channels_free = true;
}

initialize_base-starts_example :
    let (result, v', out) = initialize_base ops api answers.sensor true false service in
    AllDisabled v'.sensors
    × (v'.direct_channels ≡ [])
    × ((result ≡ ok) ↔ ((false ≡ true) × (true ≡ true)))
    × ((post_events to_event api answers (event 5 ∷ []) false v' ≡ none)
        ↔ ((false ≡ false) × (true ≡ true)))
initialize_base-starts_example =
    initialize_base-starts to_event ops api answers.sensor true false service answers (event 5 ∷ [])
      false
