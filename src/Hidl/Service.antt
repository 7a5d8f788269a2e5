-- ===== src/Hidl/Service.antt =====
-- Sensors of sensors/2.X/Sensors.h: its state, the calls for a sensor, and what it does for a sensor's callback. The event
-- of a direct channel is a value of a type E, and `to_event` is convertToSensorEvent of HIDL's library. `none` is what is
-- undefined: a queue or a flag that is not there.
use bosch_mems_android_hal.Common.{
  ℕ, ℤ, pos, ltb_ℤ, Bool, List, [], ◌∷◌, ◌++◌, Option, none, some, Map, lookup, insert, values,
  length, if◌then◌else◌, FloatOps,
}
use bosch_mems_android_hal.Core.DirectChannel.{DirectChannel}
use bosch_mems_android_hal.Aidl.Types.{Interface, Event}
use bosch_mems_android_hal.Aidl.Placement.{◌>>=◌}
use bosch_mems_android_hal.Aidl.Sensor.{Effect, hal_activate, hal_batch}
use bosch_mems_android_hal.Aidl.Sensor as AidlSensor
use bosch_mems_android_hal.Aidl.Reports.{OperationMode}
use bosch_mems_android_hal.Aidl.WakeLock.{WakeLock, WakeAnswers, update_wake_lock}
use bosch_mems_android_hal.Aidl.Service.{ServiceAnswers, Output, to_hal, to_event_queue}
use bosch_mems_android_hal.Multihal.Types.{Result, ok, bad_value}
use bosch_mems_android_hal.Subhal.Sensor.{Sensor}
use bosch_mems_android_hal.Subhal.Reports as SubhalReports
use bosch_mems_android_hal.Subhal.Service.{write_events}
use bosch_mems_android_hal.Hidl.Sensor as HidlSensor

pub record Sensors (F E : Type 0) : Type 0 where
  pub has_event_queue : Bool  -- mEventQueue is not nullptr
  pub has_event_queue_flag : Bool  -- nor mEventQueueFlag
  pub report_latency_ns : Map ℤ
  pub sensors : Map (Sensor F)
  pub next_handle : ℕ
  pub wake_lock : WakeLock
  pub read_wake_lock_queue_run : Bool
  pub direct_channels : Map (DirectChannel E)
  pub next_channel_handle : ℕ

-- The loop of setOperationMode: the result is that of the last sensor.
unfoldable pub set_operation_mode : {F : Type 0} → OperationMode → Result → List (Sensor F) → Result
set_operation_mode mode res [] = res
set_operation_mode mode res (s ∷ ss) =
    set_operation_mode mode (HidlSensor.set_operation_mode mode) ss

-- Whether a sensor is enabled plays no role: the latency that is looked up is that of `h`.
unfoldable pub used_latency : {F : Type 0} → ℕ → Map ℤ → List (Sensor F) → ℤ → ℤ
used_latency h latencies [] used = used
used_latency h latencies (s ∷ ss) used = used_latency h latencies ss (
    if s.is_enabled
    then elim (lookup h latencies) [ none ↦ used | some l ↦ if ltb_ℤ l used then l else used ]
    else used)

module _ {F E : Type 0} (to_event : Event F → E) (api : Interface) where
  unfoldable pub post_events :
      ServiceAnswers F
      → List (Event F)
      → Bool
      → Sensors F E
      → Option (Sensors F E × List (Output F))
  post_events ans events wakeup v =
      if v.has_event_queue
      then (if ans.accepts (length events)
          then (if v.has_event_queue_flag
              then some (
                if wakeup
                    then record v {
                      wake_lock =
                          update_wake_lock api.wake_lock_timeout_seconds ans.wake (length events) 0
                            v.wake_lock;
                    }
                    else v,
                to_event_queue events ∷ [],
              )
              else none)
          else some (v, []))
      else none

  unfoldable pub write_to_direct_buffer : Bool → List (Event F) → ℕ → Sensors F E → Sensors F E
  write_to_direct_buffer locked events period v = record v {
    direct_channels = write_events to_event locked events period v.direct_channels;
  }

  -- What a sensor with handle h does, in order.
  unfoldable pub perform :
      ServiceAnswers F → ℕ → List (Effect F) → Sensors F E → Option (Sensors F E × List (Output F))
  unfolding post_events write_to_direct_buffer
  perform ans h [] v = some (v, [])
  perform ans h (hal_activate b ∷ es) v = do
    (v', out) ← perform ans h es v
    some (v', to_hal h (hal_activate b) ∷ out)
  perform ans h (hal_batch p l ∷ es) v = do
    (v', out) ← perform ans h es v
    some (v', to_hal h (hal_batch p l) ∷ out)
  perform ans h (AidlSensor.post_events events wakeup ∷ es) v = do
    (v1, written) ← post_events ans events wakeup v
    (v', out) ← perform ans h es v1
    some (v', written ++ out)
  perform ans h (AidlSensor.write_to_direct_buffer events period ∷ es) v =
      perform ans h es (write_to_direct_buffer ans.channels_free events period v)

  -- A call that goes to the sensor with a handle.
  unfoldable pub on_sensor :
      ServiceAnswers F
      → ℕ
      → (Sensor F → Result × Sensor F × List (Effect F))
      → Sensors F E
      → Option (Result × Sensors F E × List (Output F))
  unfolding perform
  on_sensor ans h f v = elim (lookup h v.sensors) [
    | none ↦ some (bad_value, v, [])
    | some s ↦ (do
      let (result, s', effects) = f s
      (v', out) ← perform ans h effects (record v { sensors = insert h s' v.sensors })
      some (result, v', out))
  ]

module _ {F E : Type 0} (to_event : Event F → E) (ops : FloatOps F) (api : Interface) where
  unfoldable pub activate :
      ServiceAnswers F → ℕ → Bool → Sensors F E → Option (Result × Sensors F E × List (Output F))
  unfolding on_sensor
  activate ans h enabled = on_sensor to_event api ans h (λ s.
      let (s', effects) = SubhalReports.activate ops api ans.sensor enabled s in (ok, s', effects))

  unfoldable pub batch :
      ServiceAnswers F → ℕ → ℤ → ℤ → Sensors F E → Option (Result × Sensors F E × List (Output F))
  unfolding on_sensor used_latency
  batch ans h period latency v =
      let m =
        if ltb_ℤ (pos 0) latency
        then insert h latency v.report_latency_ns
        else v.report_latency_ns in
      let used =
        if ltb_ℤ (pos 0) latency then used_latency h m (values v.sensors) latency else latency in
      on_sensor to_event api ans h
        (λ s. let (s', effects) = HidlSensor.batch period used s in (ok, s', effects))
        (record v { report_latency_ns = m })

  -- `stale` is the time of the event, which is not set.
  unfoldable pub flush :
      ServiceAnswers F → ℕ → ℕ → Sensors F E → Option (Result × Sensors F E × List (Output F))
  unfolding on_sensor
  flush ans stale h = on_sensor to_event api ans h (λ s.
      let (result, effects) = SubhalReports.flush ops api stale ans.sensor s in
      (result, s, effects))

  -- One round of readWakeLockFMQ, with what the framework says it handled, or 0.
  unfoldable pub read_wake_lock_fmq : WakeAnswers → ℕ → Sensors F E → Sensors F E
  read_wake_lock_fmq ans handled v = record v {
    wake_lock = update_wake_lock api.wake_lock_timeout_seconds ans 0 handled v.wake_lock;
  }

-- The event is one of the old version, which HIDL's library converts.
unfoldable pub inject_sensor_data : {F E : Type 0} → Event F → Sensors F E → Result
inject_sensor_data e v = elim (lookup e.sensor_handle v.sensors) [
  | none ↦ bad_value
  | some s ↦ SubhalReports.inject_event e s
]
