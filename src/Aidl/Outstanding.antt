-- ===== src/Aidl/Outstanding.antt =====
-- When the wake lock of sensors/aidl is held.
use mathlib.Core.List.{Memᴰ}
use bosch_mems_android_hal.Common.{
  ℕ, ◌+◌, ◌-◌, ◌%◌, ◌≤◌, ◌<◌, ◌≡◌, refl, sym, subst, ◌∙◌, inl, inr, true, false, List, [], ◌∷◌, ltb,
  leb, leb→lt, leb→le, lt→leb, le→leb, lt→ltb, le→ltb, Bool-cases, if◌then◌else◌, arith,
}
use bosch_mems_android_hal.Aidl.WakeLock.{
  WakeLock, WakeAnswers, new_val, count, is_negative, hold, update_wake_lock,
}

-- One call: what was written, what was handled, and the answers.
pub record Update : Type 0 where
  pub answers : WakeAnswers
  pub written : ℕ
  pub handled : ℕ

unfoldable pub update_all : ℕ → List Update → WakeLock → WakeLock
update_all t [] w = w
update_all t (u ∷ us) w = update_all t us (update_wake_lock t u.answers u.written u.handled w)

-- The kernel refuses nothing.
unfoldable pub AllGranted : List Update → Type 0
AllGranted [] = Unit
AllGranted (u ∷ us) = (u.answers.acquires ≡ true) × (u.answers.releases ≡ true) × AllGranted us

hold-held :
    (ans : WakeAnswers) (w : WakeLock)
    → ans.acquires ≡ true
    → ans.releases ≡ true
    → (hold ans w).has_wake_lock ≡ ltb 0 (hold ans w).outstanding_wake_up_events
unfolding hold
hold-held ans w a r = rw (a, r) (ground arith)

-- Where the kernel grants every acquire and release, after any sequence of updates the wake lock is held
-- exactly if wake-up events are outstanding.
pub update_all-held :
    (t : ℕ) (us : List Update) (w : WakeLock)
    → AllGranted us
    → w.has_wake_lock ≡ ltb 0 w.outstanding_wake_up_events
    → let w' = update_all t us w in w'.has_wake_lock ≡ ltb 0 w'.outstanding_wake_up_events
unfolding update_all AllGranted update_wake_lock
update_all-held t [] w g h = h
update_all-held t (u ∷ us) w (a, r, g) h =
    update_all-held t us (update_wake_lock t u.answers u.written u.handled w) g
      (hold-held u.answers (count t u.answers.written_at u.written u.handled w) a r)

new_val-lem :
    (out written handled : ℕ)
    → out + written < 2147483648
    → handled < 2147483648
    → let v = new_val out written handled in
      (if is_negative v then 0 else v) ≡ out + written - handled
unfolding new_val
new_val-lem out written handled h k = elim (Bool-cases (leb handled (out + written))) [
  | inl e ↦
      let le = leb→le handled (out + written) e in
      let small : (out + written + (4294967296 - handled % 4294967296)) % 4294967296
          ≡ out + written - handled =
        omega arith in
      rw small (rw (lt→leb 2147483648 (out + written - handled) (omega arith)) refl)
  | inr e ↦
      let lt = leb→lt handled (out + written) e in
      let large : 2147483648 ≤ (out + written + (4294967296 - handled % 4294967296)) % 4294967296 =
        omega arith in
      rw (le→leb 2147483648 _ large) (omega arith)
]

hold-keeps :
    (ans : WakeAnswers) (w : WakeLock)
    → ans.checked_at ≤ w.auto_release_wake_lock_time
    → (hold ans w).outstanding_wake_up_events ≡ w.outstanding_wake_up_events
unfolding hold
hold-keeps ans w h = rw (le→ltb w.auto_release_wake_lock_time ans.checked_at h) (ground arith)

-- While the 31 bits suffice, an update adds the events written and takes off those handled, but no more
-- than there are; and unless the automatic release is due, this is the number outstanding after it.
pub update_wake_lock-counts :
    (t : ℕ) (ans : WakeAnswers) (written handled : ℕ) (w : WakeLock)
    → w.outstanding_wake_up_events + written < 2147483648
    → handled < 2147483648
    → ans.checked_at ≤ (count t ans.written_at written handled w).auto_release_wake_lock_time
    → (update_wake_lock t ans written handled w).outstanding_wake_up_events
      ≡ w.outstanding_wake_up_events + written - handled
unfolding update_wake_lock hold count
update_wake_lock-counts t ans written handled w h k due =
    hold-keeps ans (count t ans.written_at written handled w) due
    ∙ new_val-lem w.outstanding_wake_up_events written handled h k

-- One update that comes after the timeout.
update_wake_lock-releases :
    (t : ℕ) (ans : WakeAnswers) (handled : ℕ) (w : WakeLock)
    → w.has_wake_lock ≡ true
    → ans.releases ≡ true
    → w.auto_release_wake_lock_time < ans.checked_at
    → let w' = update_wake_lock t ans 0 handled w in
      (w'.has_wake_lock ≡ false) × (w'.outstanding_wake_up_events ≡ 0)
unfolding update_wake_lock hold count
update_wake_lock-releases t ans handled w held r late =
    rw (held, r, lt→ltb w.auto_release_wake_lock_time ans.checked_at late) (refl, refl)

-- Nothing is written, and what is handled is a number of 31 bits.
unfoldable pub AllIdle : List Update → Type 0
AllIdle [] = Unit
AllIdle (u ∷ us) = (u.written ≡ 0) × (u.handled < 2147483648) × AllIdle us

IsReleased : WakeLock → Type 0
IsReleased w = (w.has_wake_lock ≡ false) × (w.outstanding_wake_up_events ≡ 0)

-- A wake lock that is not held, with no event outstanding, stays so.
idle-IsReleased :
    (t : ℕ) (u : Update) (w : WakeLock)
    → u.written ≡ 0
    → u.handled < 2147483648
    → IsReleased w
    → IsReleased (update_wake_lock t u.answers u.written u.handled w)
unfolding IsReleased update_wake_lock hold count
idle-IsReleased t u w none_written few (free, none_out) =
    let left : (if is_negative (new_val 0 0 u.handled) then 0 else new_val 0 0 u.handled) ≡ 0 =
      new_val-lem 0 0 u.handled (omega arith) few ∙ omega arith in
    rw (none_written, free, none_out, left) (refl, refl)

stay-IsReleased :
    (t : ℕ) (us : List Update) (w : WakeLock)
    → AllIdle us
    → IsReleased w
    → IsReleased (update_all t us w)
unfolding update_all AllIdle
stay-IsReleased t [] w idle r = r
stay-IsReleased t (u ∷ us) w (none_written, few, idle) r =
    stay-IsReleased t us (update_wake_lock t u.answers u.written u.handled w) idle
      (idle-IsReleased t u w none_written few r)

hold-time :
    (ans : WakeAnswers) (w : WakeLock)
    → (hold ans w).auto_release_wake_lock_time ≡ w.auto_release_wake_lock_time
unfolding hold
hold-time ans w = ground arith

idle-time :
    (t : ℕ) (u : Update) (w : WakeLock)
    → u.written ≡ 0
    → (update_wake_lock t u.answers u.written u.handled w).auto_release_wake_lock_time
      ≡ w.auto_release_wake_lock_time
unfolding update_wake_lock count
idle-time t u w none_written =
    hold-time u.answers (count t u.answers.written_at u.written u.handled w) ∙ rw none_written refl

-- A wake lock that is held exactly if events are outstanding: after any updates that write no event and handle less
-- than 2 ^ 31 each, of which one at least looks at the clock after the time of the automatic release, and
-- where the kernel grants every acquire and release, the lock is not held and no event is outstanding.
pub update_all-releases :
    (t : ℕ) (us : List Update) (w : WakeLock) (late : Update)
    → AllGranted us
    → AllIdle us
    → w.has_wake_lock ≡ ltb 0 w.outstanding_wake_up_events
    → Memᴰ late us
    → w.auto_release_wake_lock_time < late.answers.checked_at
    → let w' = update_all t us w in (w'.has_wake_lock ≡ false) × (w'.outstanding_wake_up_events ≡ 0)
unfolding update_all AllGranted AllIdle update_wake_lock IsReleased
update_all-releases t [] w late g idle h m after = elim m [ ]
update_all-releases t (u ∷ us) w late (a, r, g) (none_written, few, idle) h (Memᴰ.head e) after =
    stay-IsReleased t us (update_wake_lock t u.answers u.written u.handled w) idle
      (elim (Bool-cases w.has_wake_lock) [
        | inl held ↦
            let after' : w.auto_release_wake_lock_time < u.answers.checked_at =
              subst (λ v. w.auto_release_wake_lock_time < v.answers.checked_at) e after in
            rw none_written (update_wake_lock-releases t u.answers u.handled w held r after')
        | inr free ↦ idle-IsReleased t u w none_written few (free, none_left w (sym h ∙ free))
      ])
  where
    none_left :
        (v : WakeLock)
        → ltb 0 v.outstanding_wake_up_events ≡ false
        → v.outstanding_wake_up_events ≡ 0
    none_left v e = ground arith
update_all-releases t (u ∷ us) w late (a, r, g) (none_written, few, idle) h (Memᴰ.tail m) after =
    update_all-releases t us (update_wake_lock t u.answers u.written u.handled w) late g idle
      (hold-held u.answers (count t u.answers.written_at u.written u.handled w) a r) m
      (rw (idle-time t u w none_written) after)
