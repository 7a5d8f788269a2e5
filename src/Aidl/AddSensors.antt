-- ===== src/Aidl/AddSensors.antt =====
-- The XML configuration and AddSensors of sensors/aidl/SensorsHalAidl.cpp, and the constructor of the service.
-- The parser of the configuration is generated by the build: what it reads from a path is a parameter.
-- `none` is the dereference of a configuration that was not found.
use bosch_mems_android_hal.Common.{
  ℕ, ◌+◌, ◌*◌, ◌^◌, false, ◌&&◌, List, [], ◌∷◌, ◌++◌, Option, none, some, insert, replicate, bit_or,
  Bytes, codes, bytes_eq, ◌==◌, if◌then◌else◌, FloatOps,
}
use bosch_mems_android_hal.Core.Types.{SensorData, SensorReportingMode, type_code}
use bosch_mems_android_hal.Aidl.Types.{Interface, SensorInfo, Configuration}
use bosch_mems_android_hal.Aidl.Placement.{◌>>=◌}
use bosch_mems_android_hal.Aidl.Sensor.{Sensor, make_sensor}
use bosch_mems_android_hal.Aidl.WakeLock.{no_wake_lock}
use bosch_mems_android_hal.Aidl.Service.{SensorsHalAidl}

pub record SensorConfig (F : Type 0) : Type 0 where
  pub name : Bytes
  pub sensor_type : ℕ
  pub configuration : List (Configuration F)

pub record Module (F : Type 0) : Type 0 where
  pub hal_name : Bytes
  pub sensors : List (SensorConfig F)

-- gSensorConfigLocationList.
abbrev pub config_locations : List Bytes
config_locations = codes "/odm/etc/sensors/" ∷ codes "/vendor/etc/sensors/" ∷ []

module _ {F : Type 0} where
  -- The first sensor of the list with the name and the type.
  unfoldable pub get_sensor_configuration :
      List (SensorConfig F) → Bytes → ℕ → Option (List (Configuration F))
  get_sensor_configuration [] name t = none
  get_sensor_configuration (c ∷ cs) name t =
      if bytes_eq name c.name && t == c.sensor_type
      then some c.configuration
      else get_sensor_configuration cs name t

  unfoldable pub find_module : List (Module F) → Option (List (SensorConfig F))
  find_module [] = none
  find_module (m ∷ ms) =
      if bytes_eq m.hal_name (codes "bosch-hal") then some m.sensors else find_module ms

  unfoldable pub or_else :
      Option (List (SensorConfig F))
      → Option (List (SensorConfig F))
      → Option (List (SensorConfig F))
  or_else none other = other
  or_else (some cs) other = some cs

  -- `parse` is what the generated parser reads from a path.
  unfoldable pub read_from :
      (Bytes → Option (List (Module F))) → List Bytes → Option (List (SensorConfig F))
  unfolding or_else find_module
  read_from parse [] = none
  read_from parse (dir ∷ dirs) = elim (parse (dir ++ codes "sensor_hal_configuration.xml")) [
    | none ↦ read_from parse dirs
    | some ms ↦ or_else (find_module ms) (read_from parse dirs)
  ]

  unfoldable pub read_sensors_config_from_xml :
      (Bytes → Option (List (Module F))) → Option (List (SensorConfig F))
  unfolding read_from
  read_sensors_config_from_xml parse = read_from parse config_locations

unfoldable pub mode_flags : Interface → SensorReportingMode → ℕ
mode_flags api SensorReportingMode.continuous =
    bit_or (bit_or (bit_or api.continuous_mode api.additional_info) api.direct_channel_ashmem)
      (api.rate_normal * 2 ^ api.direct_report_shift)
mode_flags api SensorReportingMode.on_change = api.on_change_mode
mode_flags api SensorReportingMode.one_shot = api.one_shot_mode
mode_flags api SensorReportingMode.special_reporting = api.special_reporting_mode

module _ {F : Type 0} (ops : FloatOps F) (api : Interface) where
  unfoldable pub sensor_info_of : ℕ → SensorData F → SensorInfo F
  unfolding mode_flags
  sensor_info_of handle d = record {
    sensor_handle = handle;
    name = d.sensor_name;
    vendor = d.vendor;
    version = 1;
    sensor_type = type_code d.sensor_type;
    max_range = d.range;
    resolution = d.resolution;
    power = d.power;
    min_delay_us = d.min_delay_us;
    max_delay_us = d.max_delay_us;
    flags = mode_flags api d.report_mode;
  }

  -- mAdditionalInfoValues of a new sensor is all zero.
  unfoldable pub new_sensor : ℕ → SensorData F → Option (List (Configuration F)) → Sensor F
  unfolding sensor_info_of
  new_sensor handle d config =
      make_sensor (replicate api.frame_size (ops.ratio 0 1)) (sensor_info_of handle d) config

  -- The loop over the available sensors; the configuration is read again for each.
  unfoldable pub add_sensors :
      (Bytes → Option (List (Module F)))
      → List (SensorData F)
      → SensorsHalAidl F
      → Option (SensorsHalAidl F)
  unfolding read_sensors_config_from_xml get_sensor_configuration new_sensor
  add_sensors parse [] v = some v
  add_sensors parse (d ∷ ds) v = do
    configs ← read_sensors_config_from_xml parse
    let config = get_sensor_configuration configs d.sensor_name (type_code d.sensor_type)
    let h = v.next_handle
    add_sensors parse ds
        (record v { next_handle = h + 1; sensors = insert h (new_sensor h d config) v.sensors })

-- The members' initial values.
abbrev pub no_sensors : {F : Type 0} → SensorsHalAidl F
no_sensors = record {
  has_event_queue = false;
  has_event_queue_flag = false;
  report_latency_ns = [];
  sensors = [];
  next_handle = 1;
  wake_lock = no_wake_lock;
  read_wake_lock_queue_run = false;
  direct_channels = [];
  next_channel_handle = 1;
}

-- The constructor, with the data of the available sensors.
unfoldable pub make_service :
    {F : Type 0}
    → FloatOps F
    → Interface
    → (Bytes → Option (List (Module F)))
    → List (SensorData F)
    → Option (SensorsHalAidl F)
unfolding add_sensors
make_service ops api parse ds = add_sensors ops api parse ds no_sensors
