-- ===== src/Multihal/AidlTypes.antt =====
-- The types that sensors/multihal/aidl/ConvertUtils.cpp converts. They are those of the HIDL and AIDL interfaces,
-- whose enumerations give the same names the same values. Floats and integers are 32-bit patterns, arrays are
-- lists. HIDL's payload is a union of which each member can be read and written.
use bosch_mems_android_hal.Common.{ℕ, ◌≡◌, Bool, List, Bytes}

pub data SensorType : Type 0 where
  meta_data accelerometer magnetic_field orientation gyroscope gravity linear_acceleration :
      SensorType
  game_rotation_vector rotation_vector geomagnetic_rotation_vector : SensorType
  accelerometer_uncalibrated magnetic_field_uncalibrated gyroscope_uncalibrated : SensorType
  device_orientation light pressure proximity relative_humidity ambient_temperature : SensorType
  significant_motion step_detector tilt_detector wake_gesture glance_gesture pick_up_gesture :
      SensorType
  wrist_tilt_gesture stationary_detect motion_detect heart_beat low_latency_offbody_detect :
      SensorType
  hinge_angle step_counter heart_rate pose_6dof dynamic_sensor_meta additional_info head_tracker :
      SensorType
  other_type : ℕ → SensorType

pub record Vec3 : Type 0 where
  pub x : ℕ
  pub y : ℕ
  pub z : ℕ
  pub status : ℕ

pub record Vec4 : Type 0 where
  pub x : ℕ
  pub y : ℕ
  pub z : ℕ
  pub w : ℕ

pub record Uncal : Type 0 where
  pub x : ℕ
  pub y : ℕ
  pub z : ℕ
  pub x_bias : ℕ
  pub y_bias : ℕ
  pub z_bias : ℕ

pub record HeartRate : Type 0 where
  pub bpm : ℕ
  pub status : ℕ

pub record DynamicInfo : Type 0 where
  pub connected : Bool
  pub sensor_handle : ℕ
  pub uuid : List ℕ

pub record HeadTracker : Type 0 where
  pub rx : ℕ
  pub ry : ℕ
  pub rz : ℕ
  pub vx : ℕ
  pub vy : ℕ
  pub vz : ℕ
  pub discontinuity_count : ℕ

pub data AdditionalPayload : Type 0 where
  data_int32 : List ℕ → AdditionalPayload
  data_float : List ℕ → AdditionalPayload
  other_tag : AdditionalPayload

pub record AdditionalInfo : Type 0 where
  pub info_type : ℕ
  pub serial : ℕ
  pub payload : AdditionalPayload

-- The tagged union of AIDL.
pub data Payload : Type 0 where
  vec3 : Vec3 → Payload
  vec4 : Vec4 → Payload
  uncal : Uncal → Payload
  meta : ℕ → Payload
  scalar : ℕ → Payload
  step_count : ℕ → Payload
  heart_rate : HeartRate → Payload
  pose6dof : List ℕ → Payload
  dynamic : DynamicInfo → Payload
  additional : AdditionalInfo → Payload
  data16 : List ℕ → Payload
  head_tracker : HeadTracker → Payload

pub record AidlEvent : Type 0 where
  pub timestamp : ℕ
  pub sensor_handle : ℕ
  pub sensor_type : SensorType
  pub payload : Payload

-- HIDL's `additional`, where data_int32 and data_float are the same words.
pub record HidlAdditional : Type 0 where
  pub info_type : ℕ
  pub serial : ℕ
  pub words : List ℕ

-- A member of a union.
pub record Member (U A : Type 0) : Type 0 where
  pub read : U → A
  pub write : A → U → U
  pub read-write : (a : A) (u : U) → read (write a u) ≡ a

-- The members of HIDL's union, and DEVICE_PRIVATE_BASE.
pub record Hidl (U : Type 0) : Type 0 where
  pub meta : Member U ℕ
  pub vec3 : Member U Vec3
  pub vec4 : Member U Vec4
  pub uncal : Member U Uncal
  pub scalar : Member U ℕ
  pub step_count : Member U ℕ
  pub heart_rate : Member U HeartRate
  pub pose6dof : Member U (List ℕ)
  pub dynamic : Member U DynamicInfo
  pub additional : Member U HidlAdditional
  pub data16 : Member U (List ℕ)
  pub device_private_base : ℕ

pub record HidlEvent (U : Type 0) : Type 0 where
  pub timestamp : ℕ
  pub sensor_handle : ℕ
  pub sensor_type : SensorType
  pub u : U

-- The fields of HIDL's SensorInfo that the proxy does not look at; `type_as_string` and `required_permission` among them.
pub record InfoRest : Type 0 where
  pub name : Bytes
  pub vendor : Bytes
  pub version : ℕ
  pub type_as_string : Bytes
  pub max_range : ℕ
  pub resolution : ℕ
  pub power : ℕ
  pub min_delay : ℕ
  pub fifo_reserved_event_count : ℕ
  pub fifo_max_event_count : ℕ
  pub required_permission : Bytes
  pub max_delay : ℕ

pub record AidlSensorInfo : Type 0 where
  pub sensor_handle : ℕ
  pub name : Bytes
  pub vendor : Bytes
  pub version : ℕ
  pub sensor_type : ℕ
  pub type_as_string : Bytes
  pub max_range : ℕ
  pub resolution : ℕ
  pub power : ℕ
  pub min_delay_us : ℕ
  pub fifo_reserved_event_count : ℕ
  pub fifo_max_event_count : ℕ
  pub required_permission : Bytes
  pub max_delay_us : ℕ
  pub flags : ℕ
