-- ===== src/Subhal/Service.antt =====
-- ISensorsSubHalBase of sensors/multihal/common/SensorsSubHal.{h,cpp}: its state, the calls for a sensor, and what it does
-- for a sensor's callback. An event of a direct channel is a value of a type E, and `to_event` is
-- convertToSensorEvent of HIDL's library. `none` is what is undefined in a sensor's batch.
use bosch_mems_android_hal.Common.{
  ℕ, ◌+◌, ◌*◌, ℤ, pos, ltb_ℤ, Bool, true, false, List, [], ◌∷◌, Option, none, some, Map, lookup,
  lookup_or, insert, values, any_of, ltb, ◌==◌, if◌then◌else◌, FloatOps,
}
use bosch_mems_android_hal.Core.DirectChannel.{DirectChannel, write_event}
use bosch_mems_android_hal.Aidl.Types.{Interface, SensorInfo, Event}
use bosch_mems_android_hal.Aidl.Placement.{◌>>=◌}
use bosch_mems_android_hal.Aidl.Sensor.{
  Effect, hal_activate, hal_batch, post_events, write_to_direct_buffer,
}
use bosch_mems_android_hal.Aidl.Reports.{Answers, OperationMode}
use bosch_mems_android_hal.Multihal.Types.{Result, ok, bad_value}
use bosch_mems_android_hal.Subhal.Sensor.{Sensor}
use bosch_mems_android_hal.Subhal.Sensor as SubhalSensor
use bosch_mems_android_hal.Subhal.Reports as SubhalReports

pub record SensorsSubHal (F E : Type 0) : Type 0 where
  pub report_latency_ns : Map ℤ
  pub sensors : Map (Sensor F)
  pub next_handle : ℕ
  pub direct_channels : Map (DirectChannel E)
  pub next_channel_handle : ℕ

-- What leaves the sub-HAL: a call of a sensor's ISensorHal, and a post to the proxy's callback.
pub data Output (F : Type 0) : Type 0 where
  to_hal : ℕ → Effect F → Output F
  to_proxy : List (Event F) → Bool → Output F

module _ {F E : Type 0} (to_event : Event F → E) where
  -- The body of the inner loop of writeToDirectBuffer, on one channel. The count is taken to stay below 2 ^ 31, and
  -- its product with the period below 2 ^ 63.
  unfoldable pub deliver : ℕ → Event F → DirectChannel E → DirectChannel E
  deliver period e c =
      let h = e.sensor_handle in
      let rate = lookup_or 0 h c.rate_ns in
      let n = lookup_or 0 h c.sample_count + 1 in
      let c1 = record c { rate_ns = insert h rate c.rate_ns } in
      let c2 = record c1 { sample_count = insert h n c.sample_count } in
      if any_of (λ s. s == h) c.sensor_handles
      then if rate == 0
        then c1
        else if ltb (period * n) rate
        then c2
        else record (write_event (to_event e) c2) { sample_count = insert h 0 c2.sample_count }
      else c

  unfoldable pub deliver_to_each : ℕ → Event F → Map (DirectChannel E) → Map (DirectChannel E)
  unfolding deliver
  deliver_to_each period e [] = []
  deliver_to_each period e ((k, c) ∷ m) = (k, deliver period e c) ∷ deliver_to_each period e m

  -- The events in their order; `locked` is what try_lock answers.
  unfoldable pub write_events :
      Bool → List (Event F) → ℕ → Map (DirectChannel E) → Map (DirectChannel E)
  unfolding deliver_to_each
  write_events false es period m = m
  write_events true [] period m = m
  write_events true (e ∷ es) period m = write_events true es period (deliver_to_each period e m)

  -- What a sensor with handle h does, in order.
  unfoldable pub perform :
      Bool → ℕ → List (Effect F) → SensorsSubHal F E → SensorsSubHal F E × List (Output F)
  unfolding write_events
  perform locked h [] v = (v, [])
  perform locked h (hal_activate b ∷ es) v =
      let (v', out) = perform locked h es v in (v', to_hal h (hal_activate b) ∷ out)
  perform locked h (hal_batch p l ∷ es) v =
      let (v', out) = perform locked h es v in (v', to_hal h (hal_batch p l) ∷ out)
  perform locked h (post_events events wakeup ∷ es) v =
      let (v', out) = perform locked h es v in (v', to_proxy events wakeup ∷ out)
  perform locked h (write_to_direct_buffer events period ∷ es) v =
      perform locked h es
        (record v { direct_channels = write_events locked events period v.direct_channels })

  -- A call that goes to the sensor with a handle.
  unfoldable pub on_sensor :
      Bool
      → ℕ
      → (Sensor F → Option (Result × Sensor F × List (Effect F)))
      → SensorsSubHal F E
      → Option (Result × SensorsSubHal F E × List (Output F))
  unfolding perform
  on_sensor locked h f v = elim (lookup h v.sensors) [
    | none ↦ some (bad_value, v, [])
    | some s ↦ (do
      (result, s', effects) ← f s
      let (v', out) = perform locked h effects (record v { sensors = insert h s' v.sensors })
      some (result, v', out))
  ]

unfoldable pub get_sensors_list : {F : Type 0} → Map (Sensor F) → List (SensorInfo F)
get_sensors_list [] = []
get_sensors_list ((h, s) ∷ m) = s.sensor_info ∷ get_sensors_list m

unfoldable pub set_operation_mode : OperationMode → Result
set_operation_mode OperationMode.normal = ok
set_operation_mode OperationMode.data_injection = bad_value

module _ {F : Type 0} where
  -- The loop of batch over the sensors: the latency that is looked up is that of `h`.
  unfoldable pub used_latency : ℕ → Map ℤ → List (Sensor F) → ℤ → ℤ
  used_latency h latencies [] used = used
  used_latency h latencies (s ∷ ss) used = used_latency h latencies ss (
      if s.is_enabled
      then elim (lookup h latencies) [ none ↦ used | some l ↦ if ltb_ℤ l used then l else used ]
      else used)

module _ {F E : Type 0} (to_event : Event F → E) (ops : FloatOps F) (api : Interface) where
  unfoldable pub activate :
      Bool
      → Answers F
      → ℕ
      → Bool
      → SensorsSubHal F E
      → Option (Result × SensorsSubHal F E × List (Output F))
  unfolding on_sensor
  activate locked ans h enabled = on_sensor to_event locked h (λ s.
      let (s', effects) = SubhalReports.activate ops api ans enabled s in some (ok, s', effects))

  unfoldable pub batch :
      Bool → ℕ → ℤ → ℤ → SensorsSubHal F E → Option (Result × SensorsSubHal F E × List (Output F))
  unfolding on_sensor used_latency
  batch locked h period latency v =
      let m =
        if ltb_ℤ (pos 0) latency
        then insert h latency v.report_latency_ns
        else v.report_latency_ns in
      let used =
        if ltb_ℤ (pos 0) latency then used_latency h m (values v.sensors) latency else latency in
      on_sensor to_event locked h
        (λ s. do (s', effects) ← SubhalSensor.batch period used s; some (ok, s', effects))
        (record v { report_latency_ns = m })

  -- `stale` is the time that is not set.
  unfoldable pub flush :
      Bool
      → ℕ
      → Answers F
      → ℕ
      → SensorsSubHal F E
      → Option (Result × SensorsSubHal F E × List (Output F))
  unfolding on_sensor
  flush locked stale ans h = on_sensor to_event locked h (λ s.
      let (result, effects) = SubhalReports.flush ops api stale ans s in some (result, s, effects))

  unfoldable pub inject_sensor_data : Event F → SensorsSubHal F E → Result
  inject_sensor_data e v = elim (lookup e.sensor_handle v.sensors) [
    | none ↦ bad_value
    | some s ↦ SubhalReports.inject_event e s
  ]
