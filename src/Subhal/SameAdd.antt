-- ===== src/Subhal/SameAdd.antt =====
-- The available sensors in the sub-HAL (sensors/multihal/common/SensorsSubHal.cpp) and in the AIDL service
-- (sensors/aidl/SensorsHalAidl.cpp): the configuration that is found, and the sensors that are added.
use bosch_mems_android_hal.Common.{
  ℕ, ◌+◌, ◌≡◌, refl, inl, inr, ◌&&◌, List, [], ◌∷◌, ◌++◌, Option, none, some, insert, Bytes, codes,
  bytes_eq, ◌==◌, Bool-cases, Option-cases, FloatOps,
}
use bosch_mems_android_hal.Core.Types.{SensorData, SensorReportingMode, type_code}
use bosch_mems_android_hal.Aidl.Types.{Interface, Configuration}
use bosch_mems_android_hal.Aidl.Sensor as AidlSensor
use bosch_mems_android_hal.Aidl.Service.{SensorsHalAidl}
use bosch_mems_android_hal.Aidl.AddSensors.{Module, SensorConfig, config_locations}
use bosch_mems_android_hal.Aidl.AddSensors as AidlAdd
use bosch_mems_android_hal.Aidl.DirectBuffer.{SensorsEvent}
use bosch_mems_android_hal.Subhal.Sensor.{make_sensor}
use bosch_mems_android_hal.Subhal.Service.{SensorsSubHal}
use bosch_mems_android_hal.Subhal.AddSensors.{
  get_sensor_configuration, search_modules, search_files, read_sensors_config_from_xml,
  report_mode_flags, sensor_info_of, add_sensors, make_sub_hal,
}
use bosch_mems_android_hal.Subhal.Same.{forget}
use bosch_mems_android_hal.Subhal.SameMaps.{insert-forget_map}
use bosch_mems_android_hal.Subhal.SameService.{forget_service}

module _ {F : Type 0} where
  found-same :
      (cs : List (SensorConfig F)) (name : Bytes) (t : ℕ)
      → get_sensor_configuration cs name t ≡ AidlAdd.get_sensor_configuration cs name t
  unfolding get_sensor_configuration AidlAdd.get_sensor_configuration
  found-same [] name t = refl
  found-same (c ∷ cs) name t = elim (Bool-cases (bytes_eq name c.name && t == c.sensor_type)) [
    | inl e ↦ rw e refl
    | inr e ↦ rw e (found-same cs name t)
  ]

  modules-same :
      (ms : List (Module F)) (other : Option (List (SensorConfig F)))
      → search_modules ms other ≡ AidlAdd.or_else (AidlAdd.find_module ms) other
  unfolding search_modules AidlAdd.or_else AidlAdd.find_module
  modules-same [] other = refl
  modules-same (m ∷ ms) other = elim (Bool-cases (bytes_eq m.hal_name (codes "bosch-hal"))) [
    | inl e ↦ rw e refl
    | inr e ↦ rw e (modules-same ms other)
  ]

  files-same :
      (parse : Bytes → Option (List (Module F))) (dirs : List Bytes)
      → search_files parse dirs ≡ AidlAdd.read_from parse dirs
  unfolding search_files AidlAdd.read_from
  files-same parse [] = refl
  files-same parse (dir ∷ dirs) =
      elim (Option-cases (parse (dir ++ codes "sensor_hal_configuration.xml"))) [
        | inl e ↦ rw (search_files, AidlAdd.read_from, e) (files-same parse dirs)
        | inr (ms, e) ↦
            rw
              (
                search_files,
                AidlAdd.read_from,
                e,
                modules-same ms (search_files parse dirs),
                files-same parse dirs,
              )
              refl
      ]

  pub configs-same :
      (parse : Bytes → Option (List (Module F)))
      → read_sensors_config_from_xml parse ≡ AidlAdd.read_sensors_config_from_xml parse
  unfolding read_sensors_config_from_xml AidlAdd.read_sensors_config_from_xml
  configs-same parse = files-same parse config_locations

pub flags-same :
    (api : Interface) (mode : SensorReportingMode)
    → report_mode_flags api mode ≡ AidlAdd.mode_flags api mode
unfolding report_mode_flags AidlAdd.mode_flags
flags-same api SensorReportingMode.continuous = refl
flags-same api SensorReportingMode.on_change = refl
flags-same api SensorReportingMode.one_shot = refl
flags-same api SensorReportingMode.special_reporting = refl

module _ {F : Type 0} (ops : FloatOps F) (api : Interface) where
  new_sensor-same :
      (h : ℕ) (d : SensorData F) (config : Option (List (Configuration F)))
      → make_sensor (sensor_info_of api h d) config ≡ forget (AidlAdd.new_sensor ops api h d config)
  unfolding make_sensor sensor_info_of AidlAdd.new_sensor AidlAdd.sensor_info_of
      AidlSensor.make_sensor
  new_sensor-same h d config = rw (flags-same api d.report_mode) refl

  abbrev pub forget_made : Option (SensorsHalAidl F) → Option (SensorsSubHal F (SensorsEvent F))
  forget_made none = none
  forget_made (some v) = some (forget_service v)

  add_sensors-same :
      (parse : Bytes → Option (List (Module F))) (ds : List (SensorData F)) (v : SensorsHalAidl F)
      → add_sensors api parse ds (forget_service v)
        ≡ forget_made (AidlAdd.add_sensors ops api parse ds v)
  unfolding add_sensors AidlAdd.add_sensors
  add_sensors-same parse [] v = refl
  add_sensors-same parse (d ∷ ds) v =
      elim (Option-cases (AidlAdd.read_sensors_config_from_xml parse)) [
        | inl e ↦ rw (configs-same parse, e) refl
        | inr (configs, e) ↦
            let config =
              AidlAdd.get_sensor_configuration configs d.sensor_name (type_code d.sensor_type) in
            let t = AidlAdd.new_sensor ops api v.next_handle d config in
            rw
              (
                configs-same parse,
                e,
                found-same configs d.sensor_name (type_code d.sensor_type),
                new_sensor-same v.next_handle d config,
                insert-forget_map v.next_handle t v.sensors,
              )
              (add_sensors-same parse ds (record v {
                next_handle = v.next_handle + 1;
                sensors = insert v.next_handle t v.sensors;
              }))
      ]

  -- For any configuration files and any available sensors, the sub-HAL and the AIDL service both find a
  -- configuration or both dereference one that is missing, and where they find it, they get the same sensors with the same
  -- handles, the same flags and the same placements.
  pub make-same :
      (parse : Bytes → Option (List (Module F))) (ds : List (SensorData F))
      → make_sub_hal api parse ds ≡ forget_made (AidlAdd.make_service ops api parse ds)
  unfolding make_sub_hal AidlAdd.make_service
  make-same parse ds = add_sensors-same parse ds AidlAdd.no_sensors
