-- ===== src/Subhal/AddSensors.antt =====
-- getSensorConfiguration, readSensorsConfigFromXml, AddSensors and the initial members of the sub-HAL
-- (sensors/multihal/common/SensorsSubHal.{h,cpp}). The parser of the configuration is a parameter, as in
-- Aidl.AddSensors. `none` is the dereference of a configuration that was not found.
use bosch_mems_android_hal.Common.{
  ℕ, ◌+◌, ◌*◌, ◌^◌, ◌&&◌, List, [], ◌∷◌, ◌++◌, Option, none, some, insert, bit_or, Bytes, codes,
  bytes_eq, ◌==◌, if◌then◌else◌,
}
use bosch_mems_android_hal.Core.Types.{SensorData, SensorReportingMode, type_code}
use bosch_mems_android_hal.Aidl.Types.{Interface, SensorInfo, Configuration}
use bosch_mems_android_hal.Aidl.Placement.{◌>>=◌}
use bosch_mems_android_hal.Aidl.AddSensors.{SensorConfig, Module, config_locations}
use bosch_mems_android_hal.Subhal.Sensor.{make_sensor}
use bosch_mems_android_hal.Subhal.Service.{SensorsSubHal}

module _ {F : Type 0} where
  unfoldable pub get_sensor_configuration :
      List (SensorConfig F) → Bytes → ℕ → Option (List (Configuration F))
  get_sensor_configuration [] name t = none
  get_sensor_configuration (c ∷ cs) name t =
      if bytes_eq name c.name && t == c.sensor_type
      then some c.configuration
      else get_sensor_configuration cs name t

  -- The loop over the modules of one file, and after it the other files.
  unfoldable pub search_modules :
      List (Module F) → Option (List (SensorConfig F)) → Option (List (SensorConfig F))
  search_modules [] other = other
  search_modules (m ∷ ms) other =
      if bytes_eq m.hal_name (codes "bosch-hal") then some m.sensors else search_modules ms other

  unfoldable pub search_files :
      (Bytes → Option (List (Module F))) → List Bytes → Option (List (SensorConfig F))
  unfolding search_modules
  search_files parse [] = none
  search_files parse (dir ∷ dirs) =
      let rest = search_files parse dirs in
      elim (parse (dir ++ codes "sensor_hal_configuration.xml")) [
        | none ↦ rest
        | some ms ↦ search_modules ms rest
      ]

  unfoldable pub read_sensors_config_from_xml :
      (Bytes → Option (List (Module F))) → Option (List (SensorConfig F))
  unfolding search_files
  read_sensors_config_from_xml parse = search_files parse config_locations

-- The flags start at 0 (`SensorInfo sensorInfo{}`).
unfoldable pub report_mode_flags : Interface → SensorReportingMode → ℕ
report_mode_flags api SensorReportingMode.on_change = api.on_change_mode
report_mode_flags api SensorReportingMode.continuous =
    bit_or (bit_or (bit_or api.continuous_mode api.additional_info) api.direct_channel_ashmem)
      (api.rate_normal * 2 ^ api.direct_report_shift)
report_mode_flags api SensorReportingMode.one_shot = api.one_shot_mode
report_mode_flags api SensorReportingMode.special_reporting = api.special_reporting_mode

module _ {F : Type 0} (api : Interface) where
  unfoldable pub sensor_info_of : ℕ → SensorData F → SensorInfo F
  unfolding report_mode_flags
  sensor_info_of handle d = record {
    sensor_handle = handle;
    name = d.sensor_name;
    vendor = d.vendor;
    version = 1;
    sensor_type = type_code d.sensor_type;
    max_range = d.range;
    resolution = d.resolution;
    power = d.power;
    min_delay_us = d.min_delay_us;
    max_delay_us = d.max_delay_us;
    flags = report_mode_flags api d.report_mode;
  }

module _ {F E : Type 0} (api : Interface) where
  -- The loop over the available sensors.
  unfoldable pub add_sensors :
      (Bytes → Option (List (Module F)))
      → List (SensorData F)
      → SensorsSubHal F E
      → Option (SensorsSubHal F E)
  unfolding read_sensors_config_from_xml get_sensor_configuration sensor_info_of
  add_sensors parse [] v = some v
  add_sensors parse (d ∷ ds) v = do
    configs ← read_sensors_config_from_xml parse
    let config = get_sensor_configuration configs d.sensor_name (type_code d.sensor_type)
    let h = v.next_handle
    add_sensors parse ds (record v {
      next_handle = h + 1;
      sensors = insert h (make_sensor (sensor_info_of api h d) config) v.sensors;
    })

abbrev pub no_sensors : {F E : Type 0} → SensorsSubHal F E
no_sensors = record {
  report_latency_ns = [];
  sensors = [];
  next_handle = 1;
  direct_channels = [];
  next_channel_handle = 1;
}

-- The sub-HAL with the data of the available sensors.
unfoldable pub make_sub_hal :
    {F E : Type 0}
    → Interface
    → (Bytes → Option (List (Module F)))
    → List (SensorData F)
    → Option (SensorsSubHal F E)
unfolding add_sensors
make_sub_hal api parse ds = add_sensors api parse ds no_sensors
