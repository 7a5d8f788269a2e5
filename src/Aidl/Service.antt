-- ===== src/Aidl/Service.antt =====
-- SensorsHalAidl of sensors/aidl/SensorsHalAidl.cpp and include/sensors-impl/SensorsHalAidl.h: the state, what a
-- call does to the outside, and the calls that concern one sensor. A handle is its 32-bit pattern, so -1 is
-- 2 ^ 32 - 1. `none` is what is undefined: a step of a sensor, the first of no events, a flag that is not there.
use bosch_mems_android_hal.Common.{
  ℕ, ◌+◌, ◌-◌, ◌^◌, ℤ, pos, negsuc, pos_part, ltb_ℤ, Bool, true, false, List, [], ◌∷◌, ◌++◌, Option,
  none, some, Map, lookup, insert, map, length, is_empty, if◌then◌else◌, FloatOps,
}
use bosch_mems_android_hal.Common
use bosch_mems_android_hal.Core.DirectChannel.{DirectChannel}
use bosch_mems_android_hal.Aidl.Types.{
  Interface, SensorInfo, Event, AStatus, ok, illegal_argument, service_bad_value,
}
use bosch_mems_android_hal.Aidl.Placement.{◌>>=◌}
use bosch_mems_android_hal.Aidl.Sensor.{Sensor, Effect, hal_activate, hal_batch}
use bosch_mems_android_hal.Aidl.Sensor
use bosch_mems_android_hal.Aidl.Reports
use bosch_mems_android_hal.Aidl.Reports.{Answers, OperationMode}
use bosch_mems_android_hal.Aidl.WakeLock.{WakeLock, WakeAnswers, update_wake_lock}
use bosch_mems_android_hal.Aidl.DirectBuffer.{SensorsEvent}
use bosch_mems_android_hal.Aidl.DirectBuffer

pub record SensorsHalAidl (F : Type 0) : Type 0 where
  pub has_event_queue : Bool  -- mEventQueue is not nullptr
  pub has_event_queue_flag : Bool  -- nor mEventQueueFlag
  pub report_latency_ns : Map ℤ
  pub sensors : Map (Sensor F)
  pub next_handle : ℕ
  pub wake_lock : WakeLock
  pub read_wake_lock_queue_run : Bool
  pub direct_channels : Map (DirectChannel (SensorsEvent F))
  pub next_channel_handle : ℕ

-- What leaves the service: a call of the ISensorHal of a sensor, and what is written to the event queue.
pub data Output (F : Type 0) : Type 0 where
  to_hal : ℕ → Effect F → Output F
  to_event_queue : List (Event F) → Output F

-- What is answered during a call: to the sensor, to the wake lock, by the event queue to a write of so many
-- events, and by try_lock on the mutex of the channels.
pub record ServiceAnswers (F : Type 0) : Type 0 where
  pub sensor : Answers F
  pub wake : WakeAnswers
  pub accepts : ℕ → Bool
  pub channels_free : Bool

module _ {F : Type 0} where
  unfoldable pub tag : ℕ → List (Effect F) → List (Output F)
  tag h [] = []
  tag h (e ∷ es) = to_hal h e ∷ tag h es

module _ {F : Type 0} (api : Interface) where
  -- postEvents. events.front() is taken before the write, and the flag is used after it.
  unfoldable pub post_events :
      ServiceAnswers F
      → List (Event F)
      → Bool
      → SensorsHalAidl F
      → Option (SensorsHalAidl F × List (Output F))
  post_events ans events wakeup v =
      if v.has_event_queue
      then if is_empty events
        then none
        else if ans.accepts (length events)
        then (if v.has_event_queue_flag
            then some (
              if wakeup
                  then record v {
                    wake_lock =
                        update_wake_lock api.wake_lock_timeout_seconds ans.wake (length events) 0
                          v.wake_lock;
                  }
                  else v,
              to_event_queue events ∷ [],
            )
            else none)
        else some (v, [])
      else some (v, [])

  -- What a sensor with handle h does, in order.
  unfoldable pub perform :
      ServiceAnswers F
      → ℕ
      → List (Effect F)
      → SensorsHalAidl F
      → Option (SensorsHalAidl F × List (Output F))
  perform ans h [] v = some (v, [])
  perform ans h (hal_activate b ∷ es) v = do
    (v', out) ← perform ans h es v
    some (v', to_hal h (hal_activate b) ∷ out)
  perform ans h (hal_batch p l ∷ es) v = do
    (v', out) ← perform ans h es v
    some (v', to_hal h (hal_batch p l) ∷ out)
  perform ans h (Effect.post_events events wakeup ∷ es) v = do
    (v1, written) ← post_events ans events wakeup v
    (v', out) ← perform ans h es v1
    some (v', written ++ out)
  perform ans h (Effect.write_to_direct_buffer events period ∷ es) v = do
    m ← DirectBuffer.write_to_direct_buffer api ans.channels_free events period v.direct_channels
    (v', out) ← perform ans h es (record v { direct_channels = m })
    some (v', out)

  -- A call that goes to the sensor with a handle, or fails with `missing`.
  unfoldable pub on_sensor :
      ServiceAnswers F
      → ℕ
      → AStatus
      → (Sensor F → Option (AStatus × Sensor F × List (Effect F)))
      → SensorsHalAidl F
      → Option (AStatus × SensorsHalAidl F × List (Output F))
  on_sensor ans h missing f v = elim (lookup h v.sensors) [
    | none ↦ some (missing, v, [])
    | some s ↦ (do
      (status, s', effects) ← f s
      (v', out) ← perform ans h effects (record v { sensors = insert h s' v.sensors })
      some (status, v', out))
  ]

module _ {F : Type 0} where
  -- The loop of batch over the sensors: the latency that is looked up is that of `h`.
  unfoldable pub used_latency : ℕ → Map ℤ → List (Sensor F) → ℤ → ℤ
  used_latency h latencies [] used = used
  used_latency h latencies (s ∷ ss) used = used_latency h latencies ss (
      if s.is_enabled
      then elim (lookup h latencies) [ none ↦ used | some l ↦ if ltb_ℤ l used then l else used ]
      else used)

module _ {F : Type 0} (ops : FloatOps F) (api : Interface) where
  unfoldable pub activate :
      ServiceAnswers F
      → ℕ
      → Bool
      → SensorsHalAidl F
      → Option (AStatus × SensorsHalAidl F × List (Output F))
  activate ans h enabled = on_sensor api ans h illegal_argument (λ s. do
    (s', effects) ← Reports.activate ops api ans.sensor enabled s
    some (ok, s', effects))

  unfoldable pub flush :
      ServiceAnswers F
      → ℕ
      → SensorsHalAidl F
      → Option (AStatus × SensorsHalAidl F × List (Output F))
  flush ans h = on_sensor api ans h illegal_argument (Reports.flush ops api ans.sensor)

  unfoldable pub inject_sensor_data : Event F → SensorsHalAidl F → AStatus
  inject_sensor_data e v = elim (lookup e.sensor_handle v.sensors) [
    | none ↦ service_bad_value
    | some s ↦ Reports.inject_event ops api e s
  ]

  unfoldable pub batch :
      ServiceAnswers F
      → ℕ
      → ℤ
      → ℤ
      → SensorsHalAidl F
      → Option (AStatus × SensorsHalAidl F × List (Output F))
  unfolding used_latency
  batch ans h period latency v =
      if ltb_ℤ (pos 0) latency
      then (let m = insert h latency v.report_latency_ns in
          let used = used_latency h m (Common.values v.sensors) latency in
          on_sensor api ans h illegal_argument
            (λ s. let (s', effects) = Sensor.batch period used s in some (ok, s', effects))
            (record v { report_latency_ns = m }))
      else on_sensor api ans h illegal_argument
          (λ s. let (s', effects) = Sensor.batch period latency s in some (ok, s', effects)) v

unfoldable pub get_sensors_list : {F : Type 0} → Map (Sensor F) → List (SensorInfo F)
get_sensors_list [] = []
get_sensors_list ((h, s) ∷ m) = s.sensor_info ∷ get_sensors_list m

-- setOperationMode: the result is that of the last sensor.
unfoldable pub set_operation_mode :
    {F : Type 0} → OperationMode → AStatus → Map (Sensor F) → AStatus
set_operation_mode mode res [] = res
set_operation_mode mode res ((h, s) ∷ m) =
    set_operation_mode mode (Reports.set_operation_mode mode) m

-- readWakeLockFMQ: one round, with the events that the framework says it handled (0 after a timeout).
unfoldable pub read_wake_lock_fmq :
    {F : Type 0} → Interface → WakeAnswers → ℕ → SensorsHalAidl F → SensorsHalAidl F
read_wake_lock_fmq api ans handled v = record v {
  wake_lock = update_wake_lock api.wake_lock_timeout_seconds ans 0 handled v.wake_lock;
}
