-- ===== src/Sensors/SensorList.antt =====
-- sensors/sensors/SensorList.{h,cpp} and the part of sensors/core/CompositeSensors.{h,cpp} that keeps the
-- dependencies. The sensors are shared by pointer: a composite sensor names its accelerometer and
-- gyroscope by their places in the list of sensors.
use bosch_mems_android_hal.Common.{
  ℕ, suc, ◌+◌, Bool, true, false, List, [], ◌∷◌, ◌++◌, Option, none, some, Bytes, length, get_elem?,
  ◌==◌, if◌then◌else◌, FloatOps,
}
use bosch_mems_android_hal.Hwctl.Stream.{Sysfs}
use bosch_mems_android_hal.Hwctl.Available.{is_sensor_available}
use bosch_mems_android_hal.Core.Types.{SensorData}
use bosch_mems_android_hal.Core.SensorCore.{SensorCore, make_sensor_core, set_available, set_device}
use bosch_mems_android_hal.Sensors.Data
use bosch_mems_android_hal.Sensors.Driver.{SensorClass, class_data}

pub record Sensor (F : Type 0) : Type 0 where
  pub sensor_class : SensorClass
  pub core : SensorCore F

pub record CompositeSensor (F : Type 0) : Type 0 where
  pub sensor_data : SensorData F
  pub dependency_list : List ℕ
  pub gyro_var : F

pub record SensorList (F : Type 0) : Type 0 where
  pub sensors : List (Sensor F)
  pub composite_sensors : List (CompositeSensor F)

-- A pointer to an ISensorHal: a sensor or a composite sensor, by its place.
pub data Pointer : Type 0 where
  sensor : ℕ → Pointer
  composite : ℕ → Pointer

abbrev pub sensor_classes : List SensorClass
sensor_classes =
    SensorClass.smi330_acc ∷ SensorClass.smi330_gyro ∷ SensorClass.smi240_acc
    ∷ SensorClass.smi240_gyro ∷ SensorClass.smi230_acc ∷ SensorClass.smi230_gyro
    ∷ SensorClass.smi330_acc_uncalibrated ∷ SensorClass.smi330_gyro_uncalibrated
    ∷ SensorClass.smi240_acc_uncalibrated ∷ SensorClass.smi240_gyro_uncalibrated
    ∷ SensorClass.smi230_acc_uncalibrated ∷ SensorClass.smi230_gyro_uncalibrated ∷ []

module _ {F : Type 0} (ops : FloatOps F) where
  make_sensors : List SensorClass → List (Sensor F)
  make_sensors [] = []
  make_sensors (c ∷ cs) =
      record { sensor_class = c; core = make_sensor_core (class_data ops c) } ∷ make_sensors cs

  composite_of : SensorData F → ℕ → ℕ → F → CompositeSensor F
  composite_of d acc gyr var = record {
    sensor_data = d;
    dependency_list = acc ∷ gyr ∷ [];
    gyro_var = var;
  }

  -- SMI230_GYRO_VAR, SMI240_GYRO_VAR, SMI330_GYRO_VAR.
  abbrev smi230_gyro_var : F
  smi230_gyro_var = ops.ratio 172 1000000

  abbrev smi240_gyro_var : F
  smi240_gyro_var = ops.ratio 225 1000000

  abbrev smi330_gyro_var : F
  smi330_gyro_var = ops.ratio 49 1000000

  unfoldable pub make_sensor_list : SensorList F
  unfolding make_sensors composite_of
  make_sensor_list =
      let d330 = λ (f : SensorData F → SensorData F → SensorData F).
        f (class_data ops SensorClass.smi330_acc) (class_data ops SensorClass.smi330_gyro) in
      let d240 = λ (f : SensorData F → SensorData F → SensorData F).
        f (class_data ops SensorClass.smi240_acc) (class_data ops SensorClass.smi240_gyro) in
      let d230 = λ (f : SensorData F → SensorData F → SensorData F).
        f (class_data ops SensorClass.smi230_acc) (class_data ops SensorClass.smi230_gyro) in
      record {
        sensors = make_sensors sensor_classes;
        composite_sensors =
            composite_of (d330 (Data.smi330_gravity ops)) 0 1 smi330_gyro_var
            ∷ composite_of (d330 (Data.smi330_linear_acc ops)) 0 1 smi330_gyro_var
            ∷ composite_of (d240 (Data.smi240_gravity ops)) 2 3 smi240_gyro_var
            ∷ composite_of (d240 (Data.smi240_linear_acc ops)) 2 3 smi240_gyro_var
            ∷ composite_of (d230 (Data.smi230_gravity ops)) 4 5 smi230_gyro_var
            ∷ composite_of (d230 (Data.smi230_linear_acc ops)) 4 5 smi230_gyro_var
            ∷ [];
      }

unfoldable pub pointer_if : Option Bytes → ℕ → List Pointer
pointer_if none i = []
pointer_if (some device) i = Pointer.sensor i ∷ []

module _ {F : Type 0} where
  unfoldable pub found : Sysfs → Option Bytes → Sensor F → Sensor F
  found fs none s = s
  found fs (some device) s = record s { core = set_device fs device (set_available true s.core) }

  -- The first loop: sensors from place i on. `entries` are those of the device directory.
  unfoldable pub probe_sensors :
      Sysfs → Option (List Bytes) → ℕ → List (Sensor F) → List (Sensor F) × List Pointer
  unfolding found pointer_if
  probe_sensors fs entries i [] = ([], [])
  probe_sensors fs entries i (s ∷ ss) =
      let device = is_sensor_available fs entries s.core.sensor_data.driver_name in
      let (ss', pointers) = probe_sensors fs entries (suc i) ss in
      (found fs device s ∷ ss', pointer_if device i ++ pointers)

  unfoldable pub is_available_at : List (Sensor F) → ℕ → Bool
  is_available_at ss i = elim (get_elem? ss i) [ none ↦ false | some s ↦ s.core.available ]

  -- dependentSensors, counted on from n.
  unfoldable pub dependent_sensors : List (Sensor F) → ℕ → List ℕ → ℕ
  unfolding is_available_at
  dependent_sensors ss n [] = n
  dependent_sensors ss n (d ∷ ds) =
      dependent_sensors ss (if is_available_at ss d then n + 1 else n) ds

  -- The second loop.
  unfoldable pub probe_composites : List (Sensor F) → ℕ → List (CompositeSensor F) → List Pointer
  probe_composites ss j [] = []
  probe_composites ss j (c ∷ cs) =
      let rest = probe_composites ss (suc j) cs in
      if dependent_sensors ss 0 c.dependency_list == length c.dependency_list
      then Pointer.composite j ∷ rest
      else rest

  unfoldable pub get_available_sensors :
      Sysfs → Option (List Bytes) → SensorList F → SensorList F × List Pointer
  unfolding probe_sensors probe_composites
  get_available_sensors fs entries l =
      let (ss, pointers) = probe_sensors fs entries 0 l.sensors in
      (record l { sensors = ss }, pointers ++ probe_composites ss 0 l.composite_sensors)
