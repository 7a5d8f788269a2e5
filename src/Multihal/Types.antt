-- ===== src/Multihal/Types.antt =====
-- The types of the HIDL interface that sensors/multihal/2.X uses, and the interface of a sub-HAL
-- (sensors/multihal/2.X/include/SubHalWrapper.h), which is another library: a state and what its calls do.
-- Handles and flags are 32-bit patterns.
use bosch_mems_android_hal.Common.{ℕ, ℤ, Bool, true, false, List, Option}
use bosch_mems_android_hal.Aidl.Reports.{OperationMode}
use bosch_mems_android_hal.Aidl.ServiceChannels.{RateLevel}

pub data Result : Type 0 where
  ok permission_denied no_memory bad_value invalid_operation : Result

abbrev pub is_ok : Result → Bool
is_ok ok = true
is_ok permission_denied = false
is_ok no_memory = false
is_ok bad_value = false
is_ok invalid_operation = false

-- `rest` is what the proxy passes on as it is.
pub record SensorInfo (R : Type 0) : Type 0 where
  pub sensor_handle : ℕ
  pub sensor_type : ℕ
  pub flags : ℕ
  pub rest : R

-- `dynamic_handle` is u.dynamic.sensorHandle, which counts where the type says so.
pub record Event (P : Type 0) : Type 0 where
  pub sensor_handle : ℕ
  pub sensor_type : ℕ
  pub dynamic_handle : ℕ
  pub rest : P

-- The constants of the interface, and a default SensorInfo's rest.
pub record Interface (R : Type 0) : Type 0 where
  pub direct_mask : ℕ  -- MASK_DIRECT_REPORT | MASK_DIRECT_CHANNEL
  pub wake_up : ℕ
  pub type_additional_info : ℕ
  pub type_dynamic_sensor_meta : ℕ
  pub type_hinge_angle : ℕ
  pub default_rest : R

-- `none` is a failed transaction of getSensorsList. What a sub-HAL posts during a call is a post of its own.
pub record SubHal (S R P M : Type 0) : Type 0 where
  pub get_sensors_list : S → Option (List (SensorInfo R))
  pub set_operation_mode : OperationMode → S → Result × S
  pub activate : ℕ → Bool → S → Result × S
  pub batch : ℕ → ℤ → ℤ → S → Result × S
  pub flush : ℕ → S → Result × S
  pub inject_sensor_data : Event P → S → Result × S
  pub initialize : ℕ → S → Result × S
  pub register_direct_channel : M → S → Result × ℕ × S
  pub unregister_direct_channel : ℕ → S → Result × S
  pub config_direct_report : ℕ → ℕ → RateLevel → S → Result × ℕ × S
