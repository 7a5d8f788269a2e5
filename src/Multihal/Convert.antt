-- ===== src/Multihal/Convert.antt =====
-- convertSensorInfo, convertToHidlEvent and convertToAidlEvent of sensors/multihal/aidl/ConvertUtils.cpp. A failed
-- CHECK, and `get` of a member that the AIDL payload does not hold, abort: `none`.
use bosch_mems_android_hal.Common.{
  ℕ, List, [], ◌∷◌, ◌++◌, Option, none, some, length, take, drop, replicate, get_elem?, ltb,
  if◌then◌else◌,
}
use bosch_mems_android_hal.Aidl.Placement.{◌>>=◌}
use bosch_mems_android_hal.Multihal.Types.{SensorInfo}
use bosch_mems_android_hal.Multihal.AidlTypes.{
  SensorType, Payload, HeadTracker, AdditionalPayload, data_int32, data_float, other_tag, AidlEvent,
  Hidl, HidlEvent, InfoRest, AidlSensorInfo,
}

unfoldable pub convert_sensor_info : SensorInfo InfoRest → AidlSensorInfo
convert_sensor_info info = record {
  sensor_handle = info.sensor_handle;
  name = info.rest.name;
  vendor = info.rest.vendor;
  version = info.rest.version;
  sensor_type = info.sensor_type;
  type_as_string = info.rest.type_as_string;
  max_range = info.rest.max_range;
  resolution = info.rest.resolution;
  power = info.rest.power;
  min_delay_us = info.rest.min_delay;
  fifo_reserved_event_count = info.rest.fifo_reserved_event_count;
  fifo_max_event_count = info.rest.fifo_max_event_count;
  required_permission = info.rest.required_permission;
  max_delay_us = info.rest.max_delay;
  flags = info.flags;
}

-- The cases of the two switches.
pub data Case : Type 0 where
  meta vec3 vec4 rotation uncal scalar step_count heart_rate pose dynamic additional tracker whole :
      Case

private_case : ℕ → ℕ → Option Case
private_case base n = if ltb n base then none else some Case.whole

-- The switch of convertToHidlEvent.
unfoldable pub hidl_case : ℕ → SensorType → Option Case
unfolding private_case
hidl_case base SensorType.meta_data = some Case.meta
hidl_case base SensorType.accelerometer = some Case.vec3
hidl_case base SensorType.magnetic_field = some Case.vec3
hidl_case base SensorType.orientation = some Case.vec3
hidl_case base SensorType.gyroscope = some Case.vec3
hidl_case base SensorType.gravity = some Case.vec3
hidl_case base SensorType.linear_acceleration = some Case.vec3
hidl_case base SensorType.game_rotation_vector = some Case.vec4
hidl_case base SensorType.rotation_vector = some Case.rotation
hidl_case base SensorType.geomagnetic_rotation_vector = some Case.rotation
hidl_case base SensorType.accelerometer_uncalibrated = some Case.uncal
hidl_case base SensorType.magnetic_field_uncalibrated = some Case.uncal
hidl_case base SensorType.gyroscope_uncalibrated = some Case.uncal
hidl_case base SensorType.device_orientation = some Case.scalar
hidl_case base SensorType.light = some Case.scalar
hidl_case base SensorType.pressure = some Case.scalar
hidl_case base SensorType.proximity = some Case.scalar
hidl_case base SensorType.relative_humidity = some Case.scalar
hidl_case base SensorType.ambient_temperature = some Case.scalar
hidl_case base SensorType.significant_motion = some Case.scalar
hidl_case base SensorType.step_detector = some Case.scalar
hidl_case base SensorType.tilt_detector = some Case.scalar
hidl_case base SensorType.wake_gesture = some Case.scalar
hidl_case base SensorType.glance_gesture = some Case.scalar
hidl_case base SensorType.pick_up_gesture = some Case.scalar
hidl_case base SensorType.wrist_tilt_gesture = some Case.scalar
hidl_case base SensorType.stationary_detect = some Case.scalar
hidl_case base SensorType.motion_detect = some Case.scalar
hidl_case base SensorType.heart_beat = some Case.scalar
hidl_case base SensorType.low_latency_offbody_detect = some Case.scalar
hidl_case base SensorType.hinge_angle = some Case.scalar
hidl_case base SensorType.step_counter = some Case.step_count
hidl_case base SensorType.heart_rate = some Case.heart_rate
hidl_case base SensorType.pose_6dof = some Case.pose
hidl_case base SensorType.dynamic_sensor_meta = some Case.dynamic
hidl_case base SensorType.additional_info = some Case.additional
hidl_case base SensorType.head_tracker = some Case.tracker
hidl_case base (SensorType.other_type n) = private_case base n

-- The switch of convertToAidlEvent.
unfoldable pub aidl_case : ℕ → SensorType → Option Case
unfolding private_case
aidl_case base SensorType.meta_data = some Case.meta
aidl_case base SensorType.accelerometer = some Case.vec3
aidl_case base SensorType.magnetic_field = some Case.vec3
aidl_case base SensorType.orientation = some Case.vec3
aidl_case base SensorType.gyroscope = some Case.vec3
aidl_case base SensorType.gravity = some Case.vec3
aidl_case base SensorType.linear_acceleration = some Case.vec3
aidl_case base SensorType.game_rotation_vector = some Case.vec4
aidl_case base SensorType.rotation_vector = some Case.rotation
aidl_case base SensorType.geomagnetic_rotation_vector = some Case.rotation
aidl_case base SensorType.accelerometer_uncalibrated = some Case.uncal
aidl_case base SensorType.magnetic_field_uncalibrated = some Case.uncal
aidl_case base SensorType.gyroscope_uncalibrated = some Case.uncal
aidl_case base SensorType.device_orientation = some Case.scalar
aidl_case base SensorType.light = some Case.scalar
aidl_case base SensorType.pressure = some Case.scalar
aidl_case base SensorType.proximity = some Case.scalar
aidl_case base SensorType.relative_humidity = some Case.scalar
aidl_case base SensorType.ambient_temperature = some Case.scalar
aidl_case base SensorType.significant_motion = some Case.scalar
aidl_case base SensorType.step_detector = some Case.scalar
aidl_case base SensorType.tilt_detector = some Case.scalar
aidl_case base SensorType.wake_gesture = some Case.scalar
aidl_case base SensorType.glance_gesture = some Case.scalar
aidl_case base SensorType.pick_up_gesture = some Case.scalar
aidl_case base SensorType.wrist_tilt_gesture = some Case.scalar
aidl_case base SensorType.stationary_detect = some Case.scalar
aidl_case base SensorType.motion_detect = some Case.scalar
aidl_case base SensorType.heart_beat = some Case.scalar
aidl_case base SensorType.low_latency_offbody_detect = some Case.scalar
aidl_case base SensorType.hinge_angle = some Case.scalar
aidl_case base SensorType.step_counter = some Case.step_count
aidl_case base SensorType.heart_rate = some Case.heart_rate
aidl_case base SensorType.pose_6dof = some Case.pose
aidl_case base SensorType.dynamic_sensor_meta = some Case.dynamic
aidl_case base SensorType.additional_info = some Case.additional
aidl_case base SensorType.head_tracker = some Case.tracker
aidl_case base (SensorType.other_type n) = private_case base n

-- `std::copy` to the start of an array.
unfoldable pub overwrite : List ℕ → List ℕ → List ℕ
overwrite xs ys = xs ++ drop (length xs) ys

unfoldable pub head_words : HeadTracker → List ℕ
head_words t = t.rx ∷ t.ry ∷ t.rz ∷ t.vx ∷ t.vy ∷ t.vz ∷ t.discontinuity_count ∷ []

-- An element of u.data; the index is below 16.
abbrev element : List ℕ → ℕ → ℕ
element words i = elim (get_elem? words i) [ none ↦ 0 | some w ↦ w ]

unfoldable pub head_tracker_of : List ℕ → HeadTracker
head_tracker_of words = record {
  rx = element words 0;
  ry = element words 1;
  rz = element words 2;
  vx = element words 3;
  vy = element words 4;
  vz = element words 5;
  discontinuity_count = element words 6;
}

-- The inner switch: with another tag the words stay.
unfoldable pub words_after : AdditionalPayload → List ℕ → List ℕ
words_after (data_int32 values) words = values
words_after (data_float values) words = values
words_after other_tag words = words

module _ {U : Type 0} (hidl : Hidl U) where
  -- A case of convertToHidlEvent; the union keeps what the case does not write.
  unfoldable pub to_hidl_payload : Case → Payload → U → Option U
  unfolding overwrite head_words words_after
  to_hidl_payload Case.meta (Payload.meta what) u = some (hidl.meta.write what u)
  to_hidl_payload Case.vec3 (Payload.vec3 v) u = some (hidl.vec3.write v u)
  to_hidl_payload Case.vec4 (Payload.vec4 v) u = some (hidl.vec4.write v u)
  to_hidl_payload Case.rotation (Payload.data16 values) u =
      some (hidl.data16.write (overwrite (take 5 values) (hidl.data16.read u)) u)
  to_hidl_payload Case.uncal (Payload.uncal v) u = some (hidl.uncal.write v u)
  to_hidl_payload Case.scalar (Payload.scalar v) u = some (hidl.scalar.write v u)
  to_hidl_payload Case.step_count (Payload.step_count n) u = some (hidl.step_count.write n u)
  to_hidl_payload Case.heart_rate (Payload.heart_rate r) u = some (hidl.heart_rate.write r u)
  to_hidl_payload Case.pose (Payload.pose6dof values) u = some (hidl.pose6dof.write values u)
  to_hidl_payload Case.dynamic (Payload.dynamic d) u = some (hidl.dynamic.write d u)
  to_hidl_payload Case.additional (Payload.additional a) u = some (
      hidl.additional.write
        (record {
          info_type = a.info_type;
          serial = a.serial;
          words = words_after a.payload (hidl.additional.read u).words;
        })
        u)
  to_hidl_payload Case.tracker (Payload.head_tracker t) u =
      some (hidl.data16.write (overwrite (head_words t) (hidl.data16.read u)) u)
  to_hidl_payload Case.whole (Payload.data16 values) u = some (hidl.data16.write values u)
  to_hidl_payload c p u = none

  -- The second argument is the event that is written to.
  unfoldable pub convert_to_hidl_event : AidlEvent → HidlEvent U → Option (HidlEvent U)
  unfolding hidl_case to_hidl_payload
  convert_to_hidl_event e h = do
    c ← hidl_case hidl.device_private_base e.sensor_type
    u ← to_hidl_payload c e.payload h.u
    some (record {
      timestamp = e.timestamp;
      sensor_handle = e.sensor_handle;
      sensor_type = e.sensor_type;
      u = u;
    })

  -- A case of convertToAidlEvent; the values of a fresh Data are 0.
  unfoldable pub to_aidl_payload : Case → U → Payload
  unfolding head_tracker_of
  to_aidl_payload Case.meta u = Payload.meta (hidl.meta.read u)
  to_aidl_payload Case.vec3 u = Payload.vec3 (hidl.vec3.read u)
  to_aidl_payload Case.vec4 u = Payload.vec4 (hidl.vec4.read u)
  to_aidl_payload Case.rotation u = Payload.data16 (take 5 (hidl.data16.read u) ++ replicate 11 0)
  to_aidl_payload Case.uncal u = Payload.uncal (hidl.uncal.read u)
  to_aidl_payload Case.scalar u = Payload.scalar (hidl.scalar.read u)
  to_aidl_payload Case.step_count u = Payload.step_count (hidl.step_count.read u)
  to_aidl_payload Case.heart_rate u = Payload.heart_rate (hidl.heart_rate.read u)
  to_aidl_payload Case.pose u = Payload.pose6dof (hidl.pose6dof.read u)
  to_aidl_payload Case.dynamic u = Payload.dynamic (hidl.dynamic.read u)
  to_aidl_payload Case.additional u = Payload.additional (record {
    info_type = (hidl.additional.read u).info_type;
    serial = (hidl.additional.read u).serial;
    payload = data_int32 (hidl.additional.read u).words;
  })
  to_aidl_payload Case.tracker u = Payload.head_tracker (head_tracker_of (hidl.data16.read u))
  to_aidl_payload Case.whole u = Payload.data16 (hidl.data16.read u)

  unfoldable pub convert_to_aidl_event : HidlEvent U → Option AidlEvent
  unfolding aidl_case to_aidl_payload
  convert_to_aidl_event h = do
    c ← aidl_case hidl.device_private_base h.sensor_type
    some (record {
      timestamp = h.timestamp;
      sensor_handle = h.sensor_handle;
      sensor_type = h.sensor_type;
      payload = to_aidl_payload c h.u;
    })
