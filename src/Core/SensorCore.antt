-- ===== src/Core/SensorCore.antt =====
-- sensors/core/SensorCore.{h,cpp}. The virtual setPowerMode and setSamplingRate are the driver's:
-- each method returns the calls it makes of them, in order, and Sensors.Driver carries them out.
use bosch_mems_android_hal.Common.{
  ℕ, ◌*◌, Bool, false, ◌&&◌, List, [], ◌∷◌, Option, none, some, Bytes, Map, insert, lookup_or,
  values, any_of, ltb, if◌then◌else◌, FloatOps, bool_ne, is_empty,
}
use bosch_mems_android_hal.Hwctl.Stream.{
  Sysfs, ReadHandler, success, failure, make_read_handler, read, is_success,
}
use bosch_mems_android_hal.Hwctl.RawSysfs.{Outcome, returns, throws, init, read as read_raw}
use bosch_mems_android_hal.Core.Types.{BoschSensorType, type_code, SensorData, SensorValues}

-- A call of a virtual method.
pub data Call : Type 0 where
  set_power_mode : Bool → Call
  set_sampling_rate : ℕ → Call

pub record SensorCore (F : Type 0) : Type 0 where
  pub device : Bytes
  pub sensor_data : SensorData F
  pub available : Bool
  pub is_enabled : Bool
  pub enable_state : Map Bool
  pub sampling_periods : Map ℕ
  pub file_handler : List ReadHandler

-- Whether any type is enabled.
abbrev pub any_enabled : Map Bool → Bool
any_enabled m = any_of (λ b. b) (values m)

-- The loop of updateSamplingRate: `mEnableState[t]` of an unknown type is false.
unfoldable pub used_sampling_period : Map Bool → Map ℕ → ℕ → ℕ
used_sampling_period enabled [] used = used
used_sampling_period enabled ((t, period) ∷ periods) used =
    used_sampling_period enabled periods
      (if lookup_or false t enabled && ltb period used then period else used)

-- `mEnableState[t]` also makes the entry of an unknown type.
unfoldable pub touch : Map ℕ → Map Bool → Map Bool
touch [] enabled = enabled
touch ((t, period) ∷ periods) enabled = touch periods (insert t (lookup_or false t enabled) enabled)

module _ {F : Type 0} where
  unfoldable pub make_sensor_core : SensorData F → SensorCore F
  make_sensor_core d = record {
    device = [];
    sensor_data = d;
    available = false;
    is_enabled = false;
    enable_state = [];
    sampling_periods = [];
    file_handler = [];
  }

  unfoldable pub set_device : Sysfs → Bytes → SensorCore F → SensorCore F
  set_device fs device s = record s {
    device = device;
    file_handler = init fs s.file_handler device s.sensor_data.sysfs_raw;
  }

  unfoldable pub set_available : Bool → SensorCore F → SensorCore F
  set_available available s = record s { available = available }

  unfoldable pub update_sampling_rate : SensorCore F → SensorCore F × List Call
  unfolding used_sampling_period touch
  update_sampling_rate s = (
    record s { enable_state = touch s.sampling_periods s.enable_state },
    set_sampling_rate (
          used_sampling_period s.enable_state s.sampling_periods
            (s.sensor_data.max_delay_us * 1000))
        ∷ [],
  )

  unfoldable pub activate_by_type : BoschSensorType → Bool → SensorCore F → SensorCore F × List Call
  unfolding update_sampling_rate
  activate_by_type t enable s =
      let s1 = record s { enable_state = insert (type_code t) enable s.enable_state } in
      let is_enabled = any_enabled s1.enable_state in
      if bool_ne is_enabled s1.is_enabled
      then (let (s2, calls) = update_sampling_rate (record s1 { is_enabled = is_enabled }) in
          (s2, set_power_mode is_enabled ∷ calls))
      else (s1, [])

  unfoldable pub activate : Bool → SensorCore F → SensorCore F × List Call
  unfolding activate_by_type
  activate enable s = activate_by_type s.sensor_data.sensor_type enable s

  unfoldable pub batch_by_type : BoschSensorType → ℕ → SensorCore F → SensorCore F × List Call
  unfolding update_sampling_rate
  batch_by_type t period s =
      update_sampling_rate
        (record s { sampling_periods = insert (type_code t) period s.sampling_periods })

  unfoldable pub batch : ℕ → SensorCore F → SensorCore F × List Call
  unfolding batch_by_type
  batch period s = batch_by_type s.sensor_data.sensor_type period s

module _ {F : Type 0} (ops : FloatOps F) where
  scaled_temperature : SensorData F → Bytes → F
  scaled_temperature d text =
      ops.mul (ops.add (ops.of_text text) d.temperature_offset) d.temperature_scale

  -- `none` is `false`: no temperature file, or it cannot be read.
  unfoldable pub read_sensor_temperature : Sysfs → SensorCore F → Option F
  unfolding scaled_temperature read
  read_sensor_temperature fs s =
      let file = s.sensor_data.temperature_sysfs_raw in
      let (status, text) = read fs (make_read_handler fs s.device file) [] in
      if is_empty file
      then none
      else if is_success status
      then some (scaled_temperature s.sensor_data text)
      else none

  push_values : ℕ → Outcome × List F → Option (List (SensorValues F))
  push_values now (returns success, xs) = some (record { timestamp = now; values = xs } ∷ [])
  push_values now (returns failure, xs) = some []
  push_values now (throws, xs) = none

  -- readPollingData on an empty vector. `none` is an exception out of std::stoi.
  unfoldable pub read_sensor_values : Sysfs → ℕ → SensorCore F → Option (List (SensorValues F))
  unfolding push_values read_raw
  read_sensor_values fs now s =
      push_values now (read_raw ops fs s.sensor_data.resolution s.file_handler [])
