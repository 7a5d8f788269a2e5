-- ===== src/Multihal/WakeRefs.antt =====
-- The wake lock that the sub-HALs share: incrementRefCountAndMaybeAcquireWakelock,
-- decrementRefCountAndMaybeReleaseWakelock and resetSharedWakelock of sensors/multihal/2.X/HalProxy.cpp. The
-- readings of the clock are arguments.
use bosch_mems_android_hal.Common.{
  ℕ, ◌+◌, ◌-◌, ◌%◌, ◌^◌, min, Bool, not, ◌||◌, List, [], ◌∷◌, Option, none, some, ltb, ◌==◌,
  if◌then◌else◌,
}

pub data WakeCall : Type 0 where
  acquire_wake_lock release_wake_lock : WakeCall

pub record WakeRefs : Type 0 where
  pub threads_run : Bool
  pub wakelock_ref_count : ℕ
  pub wakelock_timeout_start_time : ℕ
  pub wakelock_timeout_reset_time : ℕ

-- The count is a size_t. The result is the time that is stored in *timeoutStart, `none` for false.
unfoldable pub increment_ref_count : ℕ → ℕ → WakeRefs → WakeRefs × List WakeCall × Option ℕ
increment_ref_count now delta w = if not w.threads_run then (w, [], none) else (
  record w {
    wakelock_timeout_start_time = now;
    wakelock_ref_count = (w.wakelock_ref_count + delta) % 2 ^ 64;
  },
  if w.wakelock_ref_count == 0 then WakeCall.acquire_wake_lock ∷ [] else [],
  some now,
)

-- `none` is the default of timeoutStart, -1.
unfoldable pub start_or_reset : Option ℕ → WakeRefs → ℕ
start_or_reset none w = w.wakelock_timeout_reset_time
start_or_reset (some t) w = t

unfoldable pub decrement_ref_count : ℕ → Option ℕ → WakeRefs → WakeRefs × List WakeCall
unfolding start_or_reset
decrement_ref_count delta timeout_start w =
    if not w.threads_run
    then (w, [])
    else if w.wakelock_ref_count == 0
        || ltb (start_or_reset timeout_start w) w.wakelock_timeout_reset_time
    then (w, [])
    else (let left = w.wakelock_ref_count - min w.wakelock_ref_count delta in
        (
          record w { wakelock_ref_count = left },
          if left == 0 then WakeCall.release_wake_lock ∷ [] else [],
        ))

unfoldable pub reset_shared_wakelock : ℕ → WakeRefs → WakeRefs × List WakeCall
unfolding decrement_ref_count
reset_shared_wakelock now w =
    let (w', calls) = decrement_ref_count w.wakelock_ref_count none w in
    (record w' { wakelock_timeout_reset_time = now }, calls)
