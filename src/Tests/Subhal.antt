-- ===== src/Tests/Subhal.antt =====
-- The theorems on the sub-HAL of sensors/multihal/common at concrete values.
use bosch_mems_android_hal.Common.{
  ℕ, ◌≤◌, ◌≡◌, refl, pos, true, false, List, [], ◌∷◌, Option, some, Bytes, codes, arith,
}
use bosch_mems_android_hal.Aidl.Sensor.{
  Sensor, Effect, hal_batch, post_events, write_to_direct_buffer, batch, add_direct_channel,
  remove_direct_channel, update_direct_channel, clamp_period, direct_rate,
}
use bosch_mems_android_hal.Aidl.Float32.{deadline}
use bosch_mems_android_hal.Aidl.SensorRun.{run_round}
use bosch_mems_android_hal.Aidl.Service.{SensorsHalAidl}
use bosch_mems_android_hal.Aidl.ServiceChannels.{all_sensors, normal, stop}
use bosch_mems_android_hal.Aidl.AddSensors.{Module, no_sensors}
use bosch_mems_android_hal.Aidl.Linked.Requests.{ServiceRequest, registers, unregisters, configures}
use bosch_mems_android_hal.Multihal.Types.{SubHal, Interface, ok}
use bosch_mems_android_hal.Multihal.HalProxy.{HalProxy}
use bosch_mems_android_hal.Multihal.Setup.{make_hal_proxy}
use bosch_mems_android_hal.Aidl.DirectBuffer.{SensorsEvent}
use bosch_mems_android_hal.Subhal.Service.{SensorsSubHal, get_sensors_list}
use bosch_mems_android_hal.Subhal.AddSensors.{make_sub_hal, read_sensors_config_from_xml}
use bosch_mems_android_hal.Subhal.Proxied.{
  Rest, hidl_infos, entries, numbered_infos, IsTransparent, one_sub_hal-IsTransparent,
}
use bosch_mems_android_hal.Subhal.Same.{forget}
use bosch_mems_android_hal.Subhal.SameSensor.{
  Request, batches, adds, removes, rounds, aidl_requests, aidl_request, requests-match,
  subhal_requests,
}
use bosch_mems_android_hal.Subhal.SameMaps.{hal_calls}
use bosch_mems_android_hal.Subhal.SameService.{
  forget_service, aidl_calls, subhal_calls, calls-match,
}
use bosch_mems_android_hal.Tests.Values.{ops, api, accel_data, platform, event, busy_sensor}

-- A batch at 10 ms, a direct channel at 20 ms, a round with one event, and the channel is removed.
abbrev requests : List (Request ℕ)
requests =
    batches (pos 10000000) (pos 0)
    ∷ adds 7 20000000
    ∷ rounds false 30000000 30000100 (event 5 ∷ [])
    ∷ removes 7
    ∷ []

abbrev moved : Sensor ℕ
moved = record busy_sensor { sampling_period_ns = 10000000; next_sample_time_ns = 40000000 }

abbrev done : List (Effect ℕ)
done =
    hal_batch 10000000 (pos 0)
    ∷ write_to_direct_buffer (event 5 ∷ []) 20000000
    ∷ post_events (event 5 ∷ []) false
    ∷ []

requests-done : aidl_requests ops api requests busy_sensor ≡ some (moved, done)
unfolding aidl_requests aidl_request batch add_direct_channel remove_direct_channel
    update_direct_channel run_round clamp_period deadline direct_rate
requests-done = refl

requests-match_example :
    subhal_requests ops api requests (forget busy_sensor) ≡ some (forget moved, done)
requests-match_example =
    requests-match ops api requests busy_sensor moved done (omega arith) requests-done

-- The sensor is the only one, and the first region gets a channel for it.
abbrev calls : List (ServiceRequest ℕ)
calls =
    registers platform true 5 416
    ∷ registers platform false 6 416
    ∷ configures 1 1 normal
    ∷ configures all_sensors 1 stop
    ∷ unregisters 1
    ∷ []

abbrev service : SensorsHalAidl ℕ
service = record no_sensors { sensors = (1, busy_sensor) ∷ []; next_handle = 2 }

calls-match_example :
    let (fine, v', out) = aidl_calls api calls service in
    subhal_calls api calls (forget_service service) ≡ (fine, forget_service v', hal_calls out)
calls-match_example = calls-match api calls service

-- One available sensor, and a proxy whose only sub-HAL has it; the calls of the sub-HAL answer OK here.
abbrev parse : Bytes → Option (List (Module ℕ))
parse path = some (record { hal_name = codes "bosch-hal"; sensors = [] } ∷ [])

abbrev proxy_api : Interface (Rest ℕ)
proxy_api = record {
  direct_mask = 0x780;
  wake_up = 1;
  type_additional_info = 33;
  type_dynamic_sensor_meta = 32;
  type_hinge_angle = 36;
  default_rest = record {
    name = [];
    vendor = [];
    version = 0;
    max_range = 0;
    resolution = 0;
    power = 0;
    min_delay_us = 0;
    max_delay_us = 0;
  };
}

abbrev State : Type 0
State = SensorsSubHal ℕ (SensorsEvent ℕ)

abbrev hal : SubHal State (Rest ℕ) ℕ ℕ
hal = record {
  get_sensors_list = λ v. some (hidl_infos (get_sensors_list v.sensors));
  set_operation_mode = λ mode v. (ok, v);
  activate = λ h enabled v. (ok, v);
  batch = λ h period latency v. (ok, v);
  flush = λ h v. (ok, v);
  inject_sensor_data = λ e v. (ok, v);
  initialize = λ i v. (ok, v);
  register_direct_channel = λ mem v. (ok, mem, v);
  unregister_direct_channel = λ ch v. (ok, v);
  config_direct_report = λ h ch rate v. (ok, h, v);
}

one_sub_hal-IsTransparent_example :
    (v : State) × (make_sub_hal api parse (accel_data ∷ []) ≡ some v)
    × ((make_hal_proxy proxy_api hal (v ∷ [])).sensors
        ≡ entries (numbered_infos api 1 (accel_data ∷ [])))
    × ((p : HalProxy State (Rest ℕ)) (u : State) (h : ℕ) → h ≤ 1 → IsTransparent hal p u h)
unfolding read_sensors_config_from_xml
one_sub_hal-IsTransparent_example =
    one_sub_hal-IsTransparent ops api proxy_api hal parse [] (accel_data ∷ []) (λ v. refl) refl
      (omega arith)
