-- ===== src/Aidl/Reports.antt =====
-- The methods of Sensor (sensors/aidl/Sensor.cpp) that post events of their own: sendAdditionalInfoReport,
-- activate and flush; and setOperationMode and injectEvent.
use bosch_mems_android_hal.Common.{
  ℕ, suc, Bool, true, false, not, ◌||◌, List, [], ◌∷◌, ◌++◌, Option, none, some, bool_ne, set,
  replicate, ◌==◌, if◌then◌else◌, FloatOps,
}
use bosch_mems_android_hal.Aidl.Types.{
  Interface, SensorInfo, Event, flush_complete, additional, FrameType, AdditionalInfo, AStatus, ok,
  service_bad_value, illegal_argument, unsupported_operation, transaction_failed, has_flag,
}
use bosch_mems_android_hal.Aidl.Placement.{◌>>=◌, get_sensor_placement, zero_float}
use bosch_mems_android_hal.Aidl.Sensor.{Sensor, Effect, hal_activate, post_events, int64_max}

-- The answers of the platform during a call: the temperature (`none` if it cannot be read), and the time
-- at which each event is made.
pub record Answers (F : Type 0) : Type 0 where
  pub temperature : Option F
  pub time : ℕ → ℕ

pub data OperationMode : Type 0 where
  normal data_injection : OperationMode

module _ {F : Type 0} where
  abbrev pub frame : FrameType → AdditionalInfo F
  frame t = record { frame_type = t; serial = 0; data_float = [] }

module _ {F : Type 0} (ops : FloatOps F) (api : Interface) where
  -- getSensorTemperature: the temperature is the first float of its frame.
  unfoldable pub get_sensor_temperature :
      Option F → List (AdditionalInfo F) → AStatus × List (AdditionalInfo F)
  get_sensor_temperature none frames = (transaction_failed, frames)
  get_sensor_temperature (some t) frames = (
    ok,
    frames
        ++ record {
          frame_type = FrameType.internal_temperature;
          serial = 0;
          data_float = set (replicate api.frame_size (zero_float ops)) 0 t;
        }
          ∷ [],
  )

  unfoldable pub frame_events :
      SensorInfo F → (ℕ → ℕ) → ℕ → List (AdditionalInfo F) → List (Event F)
  frame_events info time i [] = []
  frame_events info time i (f ∷ fs) =
      record {
        timestamp = time i;
        sensor_handle = info.sensor_handle;
        sensor_type = api.type_additional_info;
        payload = additional f;
      }
      ∷ frame_events info time (suc i) fs

  unfoldable pub is_wake_up_sensor : SensorInfo F → Bool
  is_wake_up_sensor info = has_flag info.flags api.wake_up

  -- sendAdditionalInfoReport: the two statuses are dropped. `none` is an undefined write of
  -- getSensorPlacement.
  unfoldable pub send_additional_info_report :
      Answers F → Sensor F → Option (Sensor F × List (Effect F))
  unfolding frame_events is_wake_up_sensor get_sensor_temperature
  send_additional_info_report ans s = do
    (status, values, frames) ←
        get_sensor_placement ops api.frame_size s.config s.additional_info_values
          (frame FrameType.begin ∷ [])
    let all = (get_sensor_temperature ans.temperature frames).1 ++ frame FrameType.end ∷ []
    some (
      record s { additional_info_values = values },
      post_events (frame_events s.sensor_info ans.time 0 all) (is_wake_up_sensor s.sensor_info)
          ∷ [],
    )

  unfoldable pub then_report :
      Answers F → Bool → Sensor F → List (Effect F) → Option (Sensor F × List (Effect F))
  then_report ans false s effects = some (s, effects)
  then_report ans true s effects = do
    (s', more) ← send_additional_info_report ans s
    some (s', effects ++ more)

  unfoldable pub activate : Answers F → Bool → Sensor F → Option (Sensor F × List (Effect F))
  unfolding then_report
  activate ans enable s =
      if bool_ne s.is_enabled enable
      then then_report ans enable
          (record s { is_enabled = enable; next_sample_time_ns = if enable then 0 else int64_max })
          (hal_activate enable ∷ [])
      else some (s, [])

  -- The flush event is a default event, with time 0.
  unfoldable pub flush_event : SensorInfo F → Event F
  flush_event info = record {
    timestamp = 0;
    sensor_handle = info.sensor_handle;
    sensor_type = api.type_meta_data;
    payload = flush_complete;
  }

  unfoldable pub flush : Answers F → Sensor F → Option (AStatus × Sensor F × List (Effect F))
  unfolding flush_event then_report
  flush ans s =
      if not s.is_enabled || has_flag s.sensor_info.flags api.one_shot_mode
      then some (service_bad_value, s, [])
      else (do
        (s', effects) ←
            then_report ans true s
              (post_events (flush_event s.sensor_info ∷ []) (is_wake_up_sensor s.sensor_info) ∷ [])
        some (ok, s', effects))

  unfoldable pub supports_data_injection : Sensor F → Bool
  supports_data_injection s = has_flag s.sensor_info.flags api.data_injection

  unfoldable pub inject_event : Event F → Sensor F → AStatus
  unfolding supports_data_injection
  inject_event e s =
      if e.sensor_type == api.type_additional_info
      then ok
      else if not (supports_data_injection s)
      then unsupported_operation
      else service_bad_value

unfoldable pub set_operation_mode : OperationMode → AStatus
set_operation_mode normal = ok
set_operation_mode data_injection = illegal_argument
