-- ===== src/Aidl/WakeLock.antt =====
-- updateWakeLock of sensors/aidl/include/sensors-impl/SensorsHalAidl.h. The arithmetic is that of uint32_t, and
-- newVal is its 32-bit pattern read as an int32_t. The answers of the kernel and the clock are arguments.
use bosch_mems_android_hal.Common.{
  ℕ, ◌+◌, ◌-◌, ◌*◌, ◌%◌, ◌^◌, Bool, true, false, not, ◌&&◌, ltb, leb, ◌==◌, if◌then◌else◌,
}

pub record WakeLock : Type 0 where
  pub outstanding_wake_up_events : ℕ
  pub auto_release_wake_lock_time : ℕ
  pub has_wake_lock : Bool

-- The answers during one call: the two readings of uptimeMillis, and whether the wake lock could be
-- acquired and released.
pub record WakeAnswers : Type 0 where
  pub written_at : ℕ
  pub checked_at : ℕ
  pub acquires : Bool
  pub releases : Bool

-- `mOutstandingWakeUpEvents + eventsWritten - eventsHandled`, on 32-bit patterns.
unfoldable pub new_val : ℕ → ℕ → ℕ → ℕ
new_val outstanding written handled = (outstanding + written + (2 ^ 32 - handled % 2 ^ 32)) % 2 ^ 32

abbrev pub is_negative : ℕ → Bool
is_negative v = leb (2 ^ 31) v

-- The part after the count: take the lock, or give it back.
unfoldable pub hold : WakeAnswers → WakeLock → WakeLock
hold ans w =
    if not w.has_wake_lock && (ltb 0 w.outstanding_wake_up_events && ans.acquires)
    then record w { has_wake_lock = true }
    else if w.has_wake_lock
    then (let n =
          if ltb w.auto_release_wake_lock_time ans.checked_at
          then 0
          else w.outstanding_wake_up_events in
        record w { outstanding_wake_up_events = n; has_wake_lock = not (n == 0 && ans.releases) })
    else w

-- The part before it: the number of events, and the time of the automatic release.
unfoldable pub count : ℕ → ℕ → ℕ → ℕ → WakeLock → WakeLock
unfolding new_val
count timeout_seconds now written handled w =
    let v = new_val w.outstanding_wake_up_events written handled in
    record w {
      outstanding_wake_up_events = if is_negative v then 0 else v;
      auto_release_wake_lock_time =
          if ltb 0 written && not (is_negative written)
          then now + timeout_seconds * 1000
          else w.auto_release_wake_lock_time;
    }

unfoldable pub update_wake_lock : ℕ → WakeAnswers → ℕ → ℕ → WakeLock → WakeLock
unfolding hold count
update_wake_lock timeout_seconds ans written handled w =
    hold ans (count timeout_seconds ans.written_at written handled w)

-- SensorsHalAidl's constructor.
abbrev pub no_wake_lock : WakeLock
no_wake_lock = record {
  outstanding_wake_up_events = 0;
  auto_release_wake_lock_time = 0;
  has_wake_lock = false;
}
