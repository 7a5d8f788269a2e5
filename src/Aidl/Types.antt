-- ===== src/Aidl/Types.antt =====
-- The types of the AIDL interface that sensors/aidl uses, as far as it uses them. The values of the
-- interface's constants are not in this repository: `Interface` is a parameter.
use bosch_mems_android_hal.Common.{ℕ, ℤ, Bool, not, List, Bytes, bit_and, ◌==◌}
use bosch_mems_android_hal.Core.DirectChannel.{Error}

pub record Interface : Type 0 where
  pub wake_up : ℕ  -- SENSOR_FLAG_BITS_WAKE_UP, and so on
  pub one_shot_mode : ℕ
  pub data_injection : ℕ
  pub continuous_mode : ℕ
  pub on_change_mode : ℕ
  pub special_reporting_mode : ℕ
  pub additional_info : ℕ
  pub direct_channel_ashmem : ℕ
  pub direct_report_mask : ℕ  -- SENSOR_FLAG_MASK_DIRECT_REPORT
  pub direct_report_shift : ℕ
  pub rate_normal : ℕ  -- RateLevel::NORMAL, and so on
  pub rate_fast : ℕ
  pub rate_very_fast : ℕ
  pub type_meta_data : ℕ  -- SensorType::META_DATA, and so on
  pub type_additional_info : ℕ
  pub type_ambient_temperature : ℕ
  pub type_gyroscope_uncalibrated : ℕ
  pub type_accelerometer_uncalibrated : ℕ
  pub frame_size : ℕ  -- the number of floats in an AdditionalInfo frame
  pub wake_lock_timeout_seconds : ℕ

-- `flags & bit`, as a test.
abbrev pub has_flag : ℕ → ℕ → Bool
has_flag flags bit = not (bit_and flags bit == 0)

pub record SensorInfo (F : Type 0) : Type 0 where
  pub sensor_handle : ℕ
  pub name : Bytes
  pub vendor : Bytes
  pub version : ℕ
  pub sensor_type : ℕ
  pub max_range : F
  pub resolution : F
  pub power : F
  pub min_delay_us : ℕ
  pub max_delay_us : ℕ
  pub flags : ℕ

pub data FrameType : Type 0 where
  begin end sensor_placement internal_temperature : FrameType

pub record AdditionalInfo (F : Type 0) : Type 0 where
  pub frame_type : FrameType
  pub serial : ℕ
  pub data_float : List F

pub data Payload (F : Type 0) : Type 0 where
  empty : Payload F
  scalar : F → Payload F
  vec3 : F → F → F → Payload F  -- with status ACCURACY_HIGH
  uncal : F → F → F → Payload F  -- with zero biases
  flush_complete : Payload F
  additional : AdditionalInfo F → Payload F

pub record Event (F : Type 0) : Type 0 where
  pub timestamp : ℕ
  pub sensor_handle : ℕ
  pub sensor_type : ℕ
  pub payload : Payload F

-- What the XML configuration of a sensor says.
pub record Axis : Type 0 where
  pub map_to : ℤ
  pub negate : Bool

pub record Orientation : Type 0 where
  pub rotate : Bool
  pub x : Axis
  pub y : Axis
  pub z : Axis

pub record Location (F : Type 0) : Type 0 where
  pub x : F
  pub y : F
  pub z : F

pub record Configuration (F : Type 0) : Type 0 where
  pub orientation : List Orientation
  pub location : List (Location F)

-- The outcomes of a call: `ok`, or a ScopedAStatus with its code. A service-specific error carries
-- ERROR_BAD_VALUE of the interface, or the error of a direct channel.
pub data AStatus : Type 0 where
  ok illegal_argument transaction_failed unsupported_operation : AStatus
  service_bad_value : AStatus
  service_error : Error → AStatus
