-- ===== src/Tests/Core.antt =====
-- The theorems on sensors/core at concrete values.
use mathlib.Core.List.{Memᴰ}
use bosch_mems_android_hal.Common.{
  ◌<◌, if◌then◌else◌, ◌==◌, ℕ, ◌≡◌, ◌≢◌, ◌⊎◌, refl, true, false, List, [], ◌∷◌, insert, lookup_or,
  arith,
}
use bosch_mems_android_hal.Core.Types.{BoschSensorType, SensorData, type_code}
use bosch_mems_android_hal.Core.SensorCore.{
  SensorCore, set_power_mode, set_sampling_rate, make_sensor_core, any_enabled, activate_by_type,
}
use bosch_mems_android_hal.Core.Power.{
  Request, activates, batches, requests, power_after, latest, requests-power,
}
use bosch_mems_android_hal.Core.Rate.{IsShortestFor, activate_by_type-rate}
use bosch_mems_android_hal.Core.DirectChannel.{make_buffer, write}
use bosch_mems_android_hal.Core.Composite.{World, Ask, HalRequest, of_sensor, of_composite, run}
use bosch_mems_android_hal.Core.Shared.{IsAfter}
use bosch_mems_android_hal.Core.World.{Layout, IsLaidOut, all_asked, run-IsAfter}
use bosch_mems_android_hal.Core.Ring.{Holds, write-Holds}
use bosch_mems_android_hal.Aidl.DirectBuffer.{SensorsEvent}
use bosch_mems_android_hal.Tests.Values.{accel_data, sensors_event}

-- The accelerometer is on for itself; gravity has asked for 5 ms.
abbrev running_core : SensorCore ℕ
running_core = record (make_sensor_core accel_data) {
  is_enabled = true;
  enable_state = (1, true) ∷ [];
  sampling_periods = (1, 20000000) ∷ (9, 5000000) ∷ [];
}

abbrev core_requests : List Request
core_requests =
    batches BoschSensorType.accel 20000000
    ∷ activates BoschSensorType.accel true
    ∷ activates BoschSensorType.gravity true
    ∷ activates BoschSensorType.accel false
    ∷ []

requests-power_example :
    let (s, calls) = requests core_requests (make_sensor_core accel_data) in
    (power_after false calls ≡ any_enabled s.enable_state)
    × (s.is_enabled ≡ any_enabled s.enable_state)
    × ((t : BoschSensorType)
        → lookup_or false (type_code t) s.enable_state ≡ latest t false core_requests)
requests-power_example = requests-power core_requests accel_data

activate_by_type-rate_example :
    let on = any_enabled (insert 1 false running_core.enable_state) in
    let s' = record running_core { enable_state = insert 1 false running_core.enable_state } in
    ((on ≢ running_core.is_enabled)
      × (used : ℕ) × ((activate_by_type BoschSensorType.accel false running_core).1
          ≡ set_power_mode on ∷ set_sampling_rate used ∷ [])
      × ((activate_by_type BoschSensorType.accel false running_core).0.is_enabled ≡ on)
      × IsShortestFor s' used)
    ⊎ ((on ≡ running_core.is_enabled)
        × (activate_by_type BoschSensorType.accel false running_core ≡ (s', [])))
activate_by_type-rate_example = activate_by_type-rate BoschSensorType.accel false running_core

-- The accelerometer is batched to 20 ms; then gravity, which has asked for 5 ms, is enabled.
abbrev Slower : List (ℕ × ℕ) → Type 0
Slower periods =
    (k r : ℕ)
    → Memᴰ (k, r) periods
    → lookup_or false k running_core.enable_state ≡ true
    → 5000000 < r

abbrev five_events : List (SensorsEvent ℕ)
five_events =
    sensors_event 1 ∷ sensors_event 2 ∷ sensors_event 3 ∷ sensors_event 4 ∷ sensors_event 5 ∷ []

write-Holds_example : Holds five_events (write five_events (make_buffer (sensors_event 0) 104 416))
write-Holds_example = write-Holds (sensors_event 0) 104 416 five_events (omega arith)

abbrev gravity_data : SensorData ℕ
gravity_data = record accel_data { sensor_type = BoschSensorType.gravity }

-- Core 0 is the accelerometer, core 1 the gyroscope, and every composite sensor is their gravity.
abbrev core_data : ℕ → SensorData ℕ
core_data i = record accel_data {
  sensor_type = if i == 1 then BoschSensorType.gyro else BoschSensorType.accel;
}

abbrev world : World ℕ
world = record {
  cores = λ i. make_sensor_core (core_data i);
  composites = λ j. record {
    sensor_data = gravity_data;
    dependency_list = 0 ∷ 1 ∷ [];
    just_started = false;
    sampling_period_ns = 0;
  };
}

abbrev layout : Layout
layout = record {
  sensor_type = λ i. (core_data i).sensor_type;
  composite_type = λ j. BoschSensorType.gravity;
  dependency_list = λ j. 0 ∷ 1 ∷ [];
}

world-IsLaidOut : IsLaidOut layout world
unfolding make_sensor_core
world-IsLaidOut = record {
  sensor_type = λ i. refl;
  composite_type = λ j. refl;
  dependency_list = λ j. refl;
}

-- Gravity is switched on and the accelerometer on and off again.
abbrev hal_requests : List HalRequest
hal_requests =
    of_composite 0 (Ask.batch 5000000)
    ∷ of_composite 0 (Ask.activate true)
    ∷ of_sensor 0 (Ask.activate true)
    ∷ of_sensor 0 (Ask.activate false)
    ∷ []

run-IsAfter_example :
    IsAfter 0
      (all_asked layout 0 hal_requests)
      world.cores
      ((run hal_requests world).0.cores, (run hal_requests world).1)
run-IsAfter_example = run-IsAfter layout 0 hal_requests world world-IsLaidOut
