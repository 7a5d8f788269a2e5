-- ===== src/Subhal/Reports.antt =====
-- The methods of Sensor (sensors/multihal/common/Sensor.cpp) that post events of their own: sendAdditionalInfoReport,
-- activate and flush; and injectEvent.
use bosch_mems_android_hal.Common.{
  ℕ, suc, Bool, not, ◌||◌, List, [], ◌∷◌, ◌++◌, bool_ne, if◌then◌else◌, FloatOps,
}
use bosch_mems_android_hal.Aidl.Types.{
  Interface, SensorInfo, Event, flush_complete, additional, FrameType, AdditionalInfo, has_flag,
}
use bosch_mems_android_hal.Aidl.Sensor.{Effect, hal_activate, post_events, int64_max}
use bosch_mems_android_hal.Aidl.Reports.{Answers}
use bosch_mems_android_hal.Multihal.Types.{Result, ok, bad_value, invalid_operation}
use bosch_mems_android_hal.Subhal.Sensor.{Sensor}
use bosch_mems_android_hal.Subhal.Placement.{get_sensor_placement, get_sensor_temperature}

module _ {F : Type 0} where
  abbrev pub bare_frame : FrameType → AdditionalInfo F
  bare_frame t = record { frame_type = t; serial = 0; data_float = [] }

  unfoldable pub inject_event : Event F → Sensor F → Result
  inject_event e s = invalid_operation

module _ {F : Type 0} (api : Interface) where
  unfoldable pub frame_events :
      SensorInfo F → (ℕ → ℕ) → ℕ → List (AdditionalInfo F) → List (Event F)
  frame_events info time i [] = []
  frame_events info time i (f ∷ fs) =
      record {
        timestamp = time i;
        sensor_handle = info.sensor_handle;
        sensor_type = api.type_additional_info;
        payload = additional f;
      }
      ∷ frame_events info time (suc i) fs

  unfoldable pub is_wake_up_sensor : Sensor F → Bool
  is_wake_up_sensor s = has_flag s.sensor_info.flags api.wake_up

  unfoldable pub supports_data_injection : Sensor F → Bool
  supports_data_injection s = has_flag s.sensor_info.flags api.data_injection

module _ {F : Type 0} (ops : FloatOps F) (api : Interface) where
  -- The frames: the two results are dropped.
  unfoldable pub report_frames : Answers F → Sensor F → List (AdditionalInfo F)
  report_frames ans s =
      let (placed, frames) =
        get_sensor_placement ops api.frame_size s.config (bare_frame FrameType.begin ∷ []) in
      let (measured, more) = get_sensor_temperature ops api.frame_size ans.temperature frames in
      more ++ bare_frame FrameType.end ∷ []

  unfoldable pub send_additional_info_report : Answers F → Sensor F → List (Effect F)
  unfolding frame_events is_wake_up_sensor report_frames
  send_additional_info_report ans s =
      post_events (frame_events api s.sensor_info ans.time 0 (report_frames ans s))
        (is_wake_up_sensor api s)
      ∷ []

  -- activate where the state changes.
  unfoldable pub switch : Answers F → Bool → Sensor F → Sensor F × List (Effect F)
  unfolding send_additional_info_report
  switch ans enable s =
      let s1 : Sensor F = record s {
        is_enabled = enable;
        next_sample_time_ns = if enable then 0 else int64_max;
      } in
      (s1, hal_activate enable ∷ (if enable then send_additional_info_report ans s1 else []))

  unfoldable pub activate : Answers F → Bool → Sensor F → Sensor F × List (Effect F)
  unfolding switch
  activate ans enable s = if bool_ne s.is_enabled enable then switch ans enable s else (s, [])

  -- The time of the event is not set: `stale` is what its memory holds.
  unfoldable pub flush_event : ℕ → SensorInfo F → Event F
  flush_event stale info = record {
    timestamp = stale;
    sensor_handle = info.sensor_handle;
    sensor_type = api.type_meta_data;
    payload = flush_complete;
  }

  unfoldable pub flush : ℕ → Answers F → Sensor F → Result × List (Effect F)
  unfolding flush_event send_additional_info_report is_wake_up_sensor
  flush stale ans s =
      if not s.is_enabled || has_flag s.sensor_info.flags api.one_shot_mode
      then (bad_value, [])
      else (
        ok,
        post_events (flush_event stale s.sensor_info ∷ []) (is_wake_up_sensor api s)
            ∷ send_additional_info_report ans s,
      )
