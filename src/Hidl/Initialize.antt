-- ===== src/Hidl/Initialize.antt =====
-- The constructor with AddSensors, and initializeBase, of sensors/2.X/Sensors.h. The configuration is found as in
-- Subhal.AddSensors, whose code has the same text. The memory of the queues and the threads are answers and flags.
use bosch_mems_android_hal.Common.{
  map, ◌+◌, true, false, Bool, ◌&&◌, List, [], ◌∷◌, ◌++◌, Option, some, Map, insert, Bytes,
  if◌then◌else◌, FloatOps,
}
use bosch_mems_android_hal.Core.Types.{SensorData, type_code}
use bosch_mems_android_hal.Aidl.Types.{Interface}
use bosch_mems_android_hal.Aidl.Placement.{◌>>=◌}
use bosch_mems_android_hal.Aidl.WakeLock.{no_wake_lock}
use bosch_mems_android_hal.Aidl.AddSensors.{Module}
use bosch_mems_android_hal.Aidl.Reports.{Answers}
use bosch_mems_android_hal.Multihal.Types.{Result, ok, bad_value}
use bosch_mems_android_hal.Subhal.Sensor.{Sensor, make_sensor}
use bosch_mems_android_hal.Subhal.Reports as SubhalReports
use bosch_mems_android_hal.Subhal.Service.{Output, to_hal}
use bosch_mems_android_hal.Hidl.Loops.{remove_channels}
use bosch_mems_android_hal.Subhal.AddSensors.{
  get_sensor_configuration, read_sensors_config_from_xml, sensor_info_of,
}
use bosch_mems_android_hal.Hidl.Service.{Sensors}

module _ {F : Type 0} (ops : FloatOps F) (api : Interface) where
  -- The loop that disables the sensors. A sensor that is disabled calls its ISensorHal only.
  unfoldable pub disable_each : Answers F → Map (Sensor F) → Map (Sensor F) × List (Output F)
  disable_each ans [] = ([], [])
  disable_each ans ((h, s) ∷ m) =
      let (s', effects) = SubhalReports.activate ops api ans false s in
      let (m', out) = disable_each ans m in ((h, s') ∷ m', map (to_hal h) effects ++ out)

module _ {F E : Type 0} (ops : FloatOps F) (api : Interface) where
  -- `has_callback`: the callback is not nullptr; `flag_made`: createEventFlag answers OK, and only then does it leave a
  -- flag.
  unfoldable pub initialize_base :
      Answers F → Bool → Bool → Sensors F E → Result × Sensors F E × List (Output F)
  unfolding disable_each
  initialize_base ans has_callback flag_made v =
      let (m, out) = disable_each ops api ans v.sensors in
      let (m', more) = remove_channels v.direct_channels m in
      (
        if flag_made && has_callback then ok else bad_value,
        record v {
          has_event_queue = true;
          has_event_queue_flag = flag_made;
          sensors = m';
          direct_channels = [];
          read_wake_lock_queue_run = true;
        },
        out ++ more,
      )

module _ {F E : Type 0} (api : Interface) where
  unfoldable pub add_sensors :
      (Bytes → Option (List (Module F))) → List (SensorData F) → Sensors F E → Option (Sensors F E)
  add_sensors parse [] v = some v
  add_sensors parse (d ∷ ds) v = do
    configs ← read_sensors_config_from_xml parse
    let config = get_sensor_configuration configs d.sensor_name (type_code d.sensor_type)
    let h = v.next_handle
    add_sensors parse ds (record v {
      next_handle = h + 1;
      sensors = insert h (make_sensor (sensor_info_of api h d) config) v.sensors;
    })

  -- The constructor, with the data of the available sensors.
  unfoldable pub make_sensors :
      (Bytes → Option (List (Module F))) → List (SensorData F) → Option (Sensors F E)
  unfolding add_sensors
  make_sensors parse ds = add_sensors parse ds (record {
    has_event_queue = false;
    has_event_queue_flag = false;
    report_latency_ns = [];
    sensors = [];
    next_handle = 1;
    wake_lock = no_wake_lock;
    read_wake_lock_queue_run = false;
    direct_channels = [];
    next_channel_handle = 1;
  })
