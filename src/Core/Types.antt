-- ===== src/Core/Types.antt =====
-- sensors/core/ISensorHal.h: the data that describe a sensor and the values it returns.
use bosch_mems_android_hal.Common.{ℕ, List, [], ◌∷◌, Bytes, codes, FloatOps}

pub data BoschSensorType : Type 0 where
  accel gyro gravity linear_accel gyro_uncalibrated accel_uncalibrated : BoschSensorType

-- The enumerators' values, which are those of the Android sensor types.
abbrev pub type_code : BoschSensorType → ℕ
type_code BoschSensorType.accel = 1
type_code BoschSensorType.gyro = 4
type_code BoschSensorType.gravity = 9
type_code BoschSensorType.linear_accel = 10
type_code BoschSensorType.gyro_uncalibrated = 16
type_code BoschSensorType.accel_uncalibrated = 35

pub data SensorReportingMode : Type 0 where
  continuous on_change one_shot special_reporting : SensorReportingMode

pub record SensorData (F : Type 0) : Type 0 where
  pub vendor : Bytes
  pub driver_name : Bytes
  pub sensor_name : Bytes
  pub sysfs_raw : List Bytes  -- three names, the unused ones empty
  pub temperature_sysfs_raw : Bytes
  pub sensor_type : BoschSensorType
  pub min_delay_us : ℕ
  pub max_delay_us : ℕ
  pub power : F
  pub range : F
  pub resolution : F
  pub temperature_scale : F
  pub temperature_offset : F
  pub report_mode : SensorReportingMode

pub record SensorValues (F : Type 0) : Type 0 where
  pub timestamp : ℕ
  pub values : List F

-- `SensorData mSensorData{}`: the vendor by its initialiser, all else zero or empty. The type has no
-- enumerator for 0, and every constructor of a sensor sets it: `type` is that value.
unfoldable pub default_sensor_data : {F : Type 0} → FloatOps F → BoschSensorType → SensorData F
default_sensor_data ops t = record {
  vendor = codes "Robert Bosch GmbH";
  driver_name = [];
  sensor_name = [];
  sysfs_raw = [] ∷ [] ∷ [] ∷ [];
  temperature_sysfs_raw = [];
  sensor_type = t;
  min_delay_us = 0;
  max_delay_us = 0;
  power = ops.ratio 0 1;
  range = ops.ratio 0 1;
  resolution = ops.ratio 0 1;
  temperature_scale = ops.ratio 0 1;
  temperature_offset = ops.ratio 0 1;
  report_mode = SensorReportingMode.continuous;
}
