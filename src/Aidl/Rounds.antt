-- ===== src/Aidl/Rounds.antt =====
-- What the float arithmetic of the deadline in Sensor::run (sensors/aidl/Sensor.cpp) does to the pace of a
-- sensor.
use bosch_mems_android_hal.Common.{
  ℕ, ◌*◌, ◌^◌, ◌-◌, ◌≤◌, ◌<◌, min, ◌≡◌, refl, Bool, true, false, List, [], ◌∷◌, ltb, le→leb, lt→ltb,
  if◌then◌else◌, arith,
}
use bosch_mems_android_hal.Aidl.Float32.{deadline-now}
use bosch_mems_android_hal.Aidl.Types.{Event}
use bosch_mems_android_hal.Aidl.Sensor.{Sensor, post_events}
use bosch_mems_android_hal.Aidl.SensorRun.{run_round, wait_time}

millisecond :
    (due later direct : ℕ)
    → due ≤ later
    → (if ltb (min due direct - later) 1000000 then 1000000 else min due direct - later) ≡ 1000000
millisecond due later direct h = rw (lt→ltb (min due direct - later) 1000000 (omega arith)) refl

module _ {F : Type 0} (wake_up : Bool) where
  -- The clock is a number of exactly 24 bits of units of 2 ^ e nanoseconds, where e is at most 40, and does not run
  -- backwards during the round; the sensor is enabled, due, has no enabled direct channel, and has a period of less than
  -- 2 ^ 24 nanoseconds and of less than half a unit: the round posts the events, the next sample is then due
  -- at that same time, and the loop waits a millisecond only.
  pub run_round-at_once :
      (q e later : ℕ) (events : List (Event F)) (s : Sensor F)
      → 8388608 ≤ q
      → q < 16777216
      → e ≤ 40
      → s.is_enabled ≡ true
      → s.direct_channel_enabled ≡ false
      → s.next_sample_time_ns ≤ q * 2 ^ e
      → s.sampling_period_ns < 16777216
      → 2 * s.sampling_period_ns < 2 ^ e
      → q * 2 ^ e ≤ later
      → let (t, effects, wait) = run_round wake_up (q * 2 ^ e) later events s in
        (effects ≡ post_events events wake_up ∷ [])
        × (t.next_sample_time_ns ≡ q * 2 ^ e)
        × (wait ≡ 1000000)
  unfolding run_round wait_time
  run_round-at_once q e later events s lo hi small on off due short half after =
      rw
        (
          off,
          on,
          le→leb s.next_sample_time_ns (q * 2 ^ e) due,
          deadline-now q e s.sampling_period_ns lo hi small short half,
        )
        (refl, refl, millisecond (q * 2 ^ e) later s.next_direct_channel_ns after)
