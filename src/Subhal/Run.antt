-- ===== src/Subhal/Run.antt =====
-- areAlmostEqual, gyroUncalibratedFix, readEvents and one round of run of sensors/multihal/common/Sensor.cpp.
use bosch_mems_android_hal.Common.{
  ℕ, ◌-◌, min, Bool, not, ◌&&◌, List, [], ◌∷◌, ◌++◌, Option, none, some, codes, has_infix, ◌==◌,
  ltb, leb, if◌then◌else◌, FloatOps, pos,
}
use bosch_mems_android_hal.Core.Types.{SensorValues}
use bosch_mems_android_hal.Aidl.Types.{
  Interface, SensorInfo, Payload, empty, scalar, vec3, uncal, Event,
}
use bosch_mems_android_hal.Aidl.Float32.{deadline}
use bosch_mems_android_hal.Aidl.Placement.{◌>>=◌}
use bosch_mems_android_hal.Aidl.Sensor.{Effect, post_events, write_to_direct_buffer}
use bosch_mems_android_hal.Subhal.Sensor.{Sensor}

module _ {F : Type 0} where
  -- What is written to u for three values, otherwise nothing.
  unfoldable pub of_three : (F → F → F → Payload F) → List F → Payload F
  of_three f (x ∷ y ∷ z ∷ []) = f x y z
  of_three f _ = empty

  -- data[0]: `none` past the end.
  unfoldable pub first_value : List F → Option F
  first_value [] = none
  first_value (x ∷ xs) = some x

module _ {F : Type 0} (ops : FloatOps F) where
  unfoldable pub are_almost_equal : F → F → Bool
  are_almost_equal a b = ops.lt (ops.abs (ops.sub a b)) (ops.ratio 1 100000)

  unfoldable pub gyro_uncalibrated_fix : SensorInfo F → F
  gyro_uncalibrated_fix info =
      if has_infix info.name (codes "SMI230 BOSCH") then info.resolution else ops.of_int (pos 0)

module _ {F : Type 0} (ops : FloatOps F) (api : Interface) where
  -- The payload of one value and the static lastTemperature after it.
  unfoldable pub payload_of : SensorInfo F → List F → F → Option (Payload F × F)
  unfolding of_three first_value are_almost_equal gyro_uncalibrated_fix
  payload_of info xs last =
      let fix = gyro_uncalibrated_fix ops info in
      if info.sensor_type == api.type_ambient_temperature
      then (do
        t ← first_value xs
        some (if are_almost_equal ops t last then (empty, last) else (scalar t, t)))
      else if info.sensor_type == api.type_gyroscope_uncalibrated
      then some (of_three (λ x y z. uncal (ops.add x fix) (ops.add y fix) (ops.add z fix)) xs, last)
      else if info.sensor_type == api.type_accelerometer_uncalibrated
      then some (of_three uncal xs, last)
      else some (of_three vec3 xs, last)

  -- The loop over the values that the sensor returned.
  unfoldable pub read_events :
      SensorInfo F → F → List (SensorValues F) → Option (List (Event F) × F)
  unfolding payload_of
  read_events info last [] = some ([], last)
  read_events info last (v ∷ vs) = do
    (p, last1) ← payload_of info v.values last
    (events, last2) ← read_events info last1 vs
    some (
      record {
        timestamp = v.timestamp;
        sensor_handle = info.sensor_handle;
        sensor_type = info.sensor_type;
        payload = p;
      }
          ∷ events,
      last2,
    )

-- Whether a round reads the sensor; otherwise it waits until something is enabled or the thread stops.
unfoldable pub is_active : {F : Type 0} → Sensor F → Bool
is_active s = not s.stop_thread && not (not s.is_enabled && not s.direct_channel_enabled)

-- The time to wait, at least a millisecond. The difference may be negative, where `-` is 0.
unfoldable pub wait_time : {F : Type 0} → ℕ → Sensor F → ℕ
wait_time now s =
    let left = min s.next_sample_time_ns s.next_direct_channel_ns - now in
    if ltb left 1000000 then 1000000 else left

module _ {F : Type 0} (wake_up : Bool) where
  -- A round, with the time before and after the sensor was read, and its events.
  unfoldable pub run_round : ℕ → ℕ → List (Event F) → Sensor F → Sensor F × List (Effect F) × ℕ
  unfolding wait_time
  run_round now later events s =
      let direct = s.direct_channel_enabled && leb s.next_direct_channel_ns now in
      let sample = s.is_enabled && leb s.next_sample_time_ns now in
      let s1 : Sensor F = record s {
        next_direct_channel_ns =
            if direct then deadline now s.direct_channel_rate_ns else s.next_direct_channel_ns;
        next_sample_time_ns =
            if sample then deadline now s.sampling_period_ns else s.next_sample_time_ns;
      } in
      (
        s1,
        (if direct then write_to_direct_buffer events s.direct_channel_rate_ns ∷ [] else [])
            ++ (if sample then post_events events wake_up ∷ [] else []),
        wait_time later s1,
      )
