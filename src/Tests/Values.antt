-- ===== src/Tests/Values.antt =====
-- The values that the examples share. Floats are natural numbers here, and the constants of the interface
-- are those of Android's.
use bosch_mems_android_hal.Common.{
  arith, ℕ, ◌+◌, ◌-◌, ◌*◌, ◌/◌, ◌^◌, pos, pos_part, true, false, [], ◌∷◌, none, codes, ltb,
  FloatOps,
}
use bosch_mems_android_hal.Hwctl.Stream.{Sysfs}
use bosch_mems_android_hal.Core.Types.{BoschSensorType, SensorData, SensorReportingMode}
use bosch_mems_android_hal.Core.DirectChannel.{Platform}
use bosch_mems_android_hal.Aidl.Types.{Interface, SensorInfo, Orientation, Location, Event, Payload}
use bosch_mems_android_hal.Aidl.DirectBuffer.{SensorsEvent, EventData}
use bosch_mems_android_hal.Aidl.Sensor.{Sensor}

abbrev pub ops : FloatOps ℕ
ops = record {
  of_int = pos_part;
  ratio = λ n d. n / d;
  pi = 3;
  add = λ a b. a + b;
  sub = λ a b. a - b;
  mul = λ a b. a * b;
  div = λ a b. a / b;
  abs = λ a. a;
  lt = ltb;
  of_text = λ s. 0;
}

abbrev pub api : Interface
api = record {
  wake_up = 1;
  one_shot_mode = 4;
  data_injection = 16;
  continuous_mode = 0;
  on_change_mode = 2;
  special_reporting_mode = 6;
  additional_info = 64;
  direct_channel_ashmem = 1024;
  direct_report_mask = 896;
  direct_report_shift = 7;
  rate_normal = 1;
  rate_fast = 2;
  rate_very_fast = 3;
  type_meta_data = 0;
  type_additional_info = 33;
  type_ambient_temperature = 13;
  type_gyroscope_uncalibrated = 16;
  type_accelerometer_uncalibrated = 35;
  frame_size = 14;
  wake_lock_timeout_seconds = 1;
}

abbrev pub accel_data : SensorData ℕ
accel_data = record {
  vendor = codes "Robert Bosch GmbH";
  driver_name = codes "smi330";
  sensor_name = codes "accelerometer";
  sysfs_raw = codes "x" ∷ codes "y" ∷ codes "z" ∷ [];
  temperature_sysfs_raw = codes "t";
  sensor_type = BoschSensorType.accel;
  min_delay_us = 5000;
  max_delay_us = 1280000;
  power = 1;
  range = 78;
  resolution = 2;
  temperature_scale = 1;
  temperature_offset = 23;
  report_mode = SensorReportingMode.continuous;
}

abbrev pub accel_info : SensorInfo ℕ
accel_info = record {
  sensor_handle = 1;
  name = codes "accelerometer";
  vendor = codes "Robert Bosch GmbH";
  version = 1;
  sensor_type = 1;
  max_range = 78;
  resolution = 2;
  power = 1;
  min_delay_us = 5000;
  max_delay_us = 1280000;
  flags = 1216;
}

-- A sensor that is enabled at 16 ms and due.
abbrev pub busy_sensor : Sensor ℕ
busy_sensor = record {
  is_enabled = true;
  direct_channel_enabled = false;
  sampling_period_ns = 16000000;
  next_sample_time_ns = 0;
  direct_channel_rate_ns = 2 ^ 63 - 1;
  next_direct_channel_ns = 2 ^ 63 - 1;
  sensor_info = accel_info;
  direct_channels = [];
  additional_info_values = [];
  stop_thread = false;
  config = none;
}

-- The same with an enabled direct channel.
abbrev pub shared_sensor : Sensor ℕ
shared_sensor = record busy_sensor {
  direct_channel_enabled = true;
  direct_channel_rate_ns = 20000000;
  direct_channels = (7, record { enabled = true; sampling_period_ns = 20000000 }) ∷ [];
}

abbrev pub event : ℕ → Event ℕ
event t = record { timestamp = t; sensor_handle = 1; sensor_type = 1; payload = Payload.vec3 t 0 0 }

abbrev pub sensors_event : ℕ → SensorsEvent ℕ
sensors_event t = record {
  sensor = 1;
  sensor_type = 1;
  timestamp = t;
  event_data = EventData.acceleration t 0 0;
}

-- Every descriptor is a region of 416 bytes, and events have 104.
abbrev pub platform : Platform (SensorsEvent ℕ)
platform = record {
  ashmem_valid = λ fd. true;
  region_size = λ fd. 416;
  mmap = λ fd bytes. 4096;
  maps = λ fd bytes e. omega (arith, e);
  zero_event = sensors_event 0;
  event_size = 104;
}

-- A file system where every file holds -12 and the end of the line, and can be written.
abbrev pub sysfs : Sysfs
sysfs = record {
  readable = λ p. true;
  content = λ p. codes "-12\n";
  writable = λ p. true;
  accepts = λ p c. true;
  written = [];
}

abbrev pub orientation : Orientation
orientation = record {
  rotate = false;
  x = record { map_to = pos 1; negate = true };
  y = record { map_to = pos 0; negate = false };
  z = record { map_to = pos 2; negate = false };
}

abbrev pub location : Location ℕ
location = record { x = 3; y = 4; z = 5 }
