-- ===== src/Hidl/Versions.antt =====
-- The lists of sensors of the two versions of the HIDL service: sensors/2.1/SensorsV2_1.{h,cpp} and
-- sensors/2.0/SensorsHalV2_0.h. The conversions of HIDL's library are arguments.
use bosch_mems_android_hal.Common.{ℕ, not, List, [], ◌∷◌, ◌==◌, if◌then◌else◌}
use bosch_mems_android_hal.Aidl.Types.{SensorInfo, Event}
use bosch_mems_android_hal.Multihal.Types.{Result}
use bosch_mems_android_hal.Subhal.Sensor.{Sensor}
use bosch_mems_android_hal.Hidl.Service.{Sensors, inject_sensor_data}

module _ {F : Type 0} where
  unfoldable pub get_sensors_list_2_1 : List (Sensor F) → List (SensorInfo F)
  get_sensors_list_2_1 [] = []
  get_sensors_list_2_1 (s ∷ ss) = s.sensor_info ∷ get_sensors_list_2_1 ss

module _ {F O : Type 0} (old : SensorInfo F → O) where
  -- getSensorsList of version 2.1, which has no type for hinge angles in the old infos.
  unfoldable pub get_sensors_list : ℕ → List (Sensor F) → List O
  get_sensors_list hinge_angle [] = []
  get_sensors_list hinge_angle (s ∷ ss) =
      let rest = get_sensors_list hinge_angle ss in
      if not (s.sensor_info.sensor_type == hinge_angle) then old s.sensor_info ∷ rest else rest

  -- getSensorsList of version 2.0.
  unfoldable pub get_sensors_list_2_0 : List (Sensor F) → List O
  get_sensors_list_2_0 [] = []
  get_sensors_list_2_0 (s ∷ ss) = old s.sensor_info ∷ get_sensors_list_2_0 ss

unfoldable pub inject_sensor_data_2_1 :
    {F E : Type 0} → (Event F → Event F) → Event F → Sensors F E → Result
unfolding inject_sensor_data
inject_sensor_data_2_1 to_old e v = inject_sensor_data (to_old e) v
