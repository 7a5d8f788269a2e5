-- ===== src/Aidl/SensorRun.antt =====
-- Sensor::run of sensors/aidl/Sensor.cpp: one round of the loop that is not a wait, with the time before
-- and after the sensor was read and the events that were read.
use bosch_mems_android_hal.Common.{
  ℕ, ◌-◌, min, Bool, not, ◌&&◌, ◌||◌, List, [], ◌∷◌, ◌++◌, ltb, leb, if◌then◌else◌,
}
use bosch_mems_android_hal.Aidl.Float32.{deadline}
use bosch_mems_android_hal.Aidl.Types.{Event}
use bosch_mems_android_hal.Aidl.Sensor.{Sensor, Effect, post_events, write_to_direct_buffer}

-- Whether a round reads the sensor; otherwise it waits until something is enabled or the thread stops.
unfoldable pub is_active : {F : Type 0} → Sensor F → Bool
is_active s = not s.stop_thread && (s.is_enabled || s.direct_channel_enabled)

-- `waitTime`: at least a millisecond. The difference may be negative, where `-` is 0.
unfoldable pub wait_time : {F : Type 0} → ℕ → Sensor F → ℕ
wait_time now s =
    let left = min s.next_sample_time_ns s.next_direct_channel_ns - now in
    if ltb left 1000000 then 1000000 else left

module _ {F : Type 0} (wake_up : Bool) where
  direct_part : ℕ → List (Event F) → Sensor F → Sensor F × List (Effect F)
  direct_part now events s =
      if s.direct_channel_enabled && leb s.next_direct_channel_ns now
      then (
        record s { next_direct_channel_ns = deadline now s.direct_channel_rate_ns },
        write_to_direct_buffer events s.direct_channel_rate_ns ∷ [],
      )
      else (s, [])

  sample_part : ℕ → List (Event F) → Sensor F → Sensor F × List (Effect F)
  sample_part now events s =
      if s.is_enabled && leb s.next_sample_time_ns now
      then (
        record s { next_sample_time_ns = deadline now s.sampling_period_ns },
        post_events events wake_up ∷ [],
      )
      else (s, [])

  unfoldable pub run_round : ℕ → ℕ → List (Event F) → Sensor F → Sensor F × List (Effect F) × ℕ
  unfolding direct_part sample_part
  run_round now later events s =
      let (s1, a) = direct_part now events s in
      let (s2, b) = sample_part now events s1 in (s2, a ++ b, wait_time later s2)
