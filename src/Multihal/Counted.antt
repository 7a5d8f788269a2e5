-- ===== src/Multihal/Counted.antt =====
-- The wake lock across a sub-HAL's post: ScopedWakelock, HalProxyCallbackBase and HalProxy together.
use bosch_mems_android_hal.Common.{
  ℕ, ◌+◌, ◌^◌, ◌≤◌, ◌<◌, ◌≡◌, refl, inl, inr, Bool, true, false, List, [], ◌∷◌, ◌++◌, some, Map,
  Bool-cases, if◌then◌else◌, arith,
}
use bosch_mems_android_hal.Multihal.Types.{SensorInfo, Event, Interface}
use bosch_mems_android_hal.Multihal.WakeRefs.{
  WakeRefs, WakeCall, increment_ref_count, decrement_ref_count, start_or_reset,
}
use bosch_mems_android_hal.Multihal.PendingWrites.{PendingWrites, PostAnswers, keeps_rest, post}
use bosch_mems_android_hal.Multihal.Held.{held_after, is_counted}
use bosch_mems_android_hal.Multihal.Callback.{
  ScopedWakelock, create_scoped_wakelock, destroy_scoped_wakelock, process_events,
  callback_post_events, sub_hal_post_events,
}

module _ {E : Type 0} where
  -- A locked post counts its wake up events.
  post-locked :
      (events : List E) (n : ℕ) (ans : PostAnswers) (s : PendingWrites E)
      → ((post events n true ans s).0.wake_refs ≡ (increment_ref_count ans.now n s.wake_refs).0)
        × ((post events n true ans s).2 ≡ (increment_ref_count ans.now n s.wake_refs).1)
  unfolding post
  post-locked events n ans s = elim (Bool-cases (keeps_rest events ans s)) [
    | inl e ↦ rw e (refl, refl)
    | inr e ↦ rw e (refl, refl)
  ]

  post-unlocked :
      (events : List E) (n : ℕ) (ans : PostAnswers) (s : PendingWrites E)
      → ((post events n false ans s).0.wake_refs ≡ s.wake_refs)
        × ((post events n false ans s).2 ≡ [])
  unfolding post
  post-unlocked events n ans s = elim (Bool-cases (keeps_rest events ans s)) [
    | inl e ↦ rw e (refl, refl)
    | inr e ↦ rw e (refl, refl)
  ]

-- The three steps of a post with the wake lock.
abbrev round_trip : ℕ → ℕ → ℕ → WakeRefs → WakeRefs × List WakeCall
round_trip created posted n w =
    let (w1, acquired, t) = increment_ref_count created 1 w in
    let (w2, counted, u) = increment_ref_count posted n w1 in
    let (w3, released) = decrement_ref_count 1 (some created) w2 in
    (w3, acquired ++ counted ++ released)

round_trip-counts :
    (created posted n : ℕ) (w : WakeRefs)
    → w.threads_run ≡ true
    → w.wakelock_timeout_reset_time ≤ created
    → w.wakelock_ref_count + 1 + n < 2 ^ 64
    → ((round_trip created posted n w).0.wakelock_ref_count ≡ w.wakelock_ref_count + n)
      × (held_after (is_counted w) (round_trip created posted n w).1
          ≡ is_counted (round_trip created posted n w).0)
unfolding increment_ref_count decrement_ref_count start_or_reset
round_trip-counts created posted n w runs reset fits = (ground arith, ground arith)

increment-started :
    (now : ℕ) (w : WakeRefs)
    → w.threads_run ≡ true
    → ((increment_ref_count now 1 w).2 ≡ some now)
      × ((increment_ref_count now 1 w).0.threads_run ≡ true)
unfolding increment_ref_count
increment-started now w runs = rw runs (refl, refl)

module _ {R P : Type 0} (api : Interface R) where
  -- The number of wake up events of a post.
  abbrev pub wakeups_of : ℕ → List (Event P) → Map (SensorInfo R) → ℕ
  wakeups_of i events m = (process_events api i events m).1

  callback_post_events-runs :
      (i : ℕ) (ans : PostAnswers) (e : Event P) (es : List (Event P)) (l : ScopedWakelock)
      (m : Map (SensorInfo R)) (q : PendingWrites (Event P))
      → q.wake_refs.threads_run ≡ true
      → callback_post_events api i ans (e ∷ es) l m q ≡ (
          let (events, n, m') = process_events api i (e ∷ es) m in
          let (q', written, calls) = post events n l.locked ans q in (m', q', written, calls))
  unfolding callback_post_events
  callback_post_events-runs i ans e es l m q runs = rw runs refl

  -- A post of at least one event by a sub-HAL, while the threads run, with a wake lock that is created
  -- after the last reset and no overflow of the count: with the wake lock the count of the shared one grows by exactly the number of wake up
  -- events, without it the count stays; and in both cases the shared wake lock, if it was held exactly where the count was not zero,
  -- is so after the post.
  pub sub_hal_post_events-counts :
      (i now : ℕ) (ans : PostAnswers) (e : Event P) (es : List (Event P)) (wakeup : Bool)
      (m : Map (SensorInfo R)) (q : PendingWrites (Event P))
      → q.wake_refs.threads_run ≡ true
      → q.wake_refs.wakelock_timeout_reset_time ≤ now
      → q.wake_refs.wakelock_ref_count + 1 + wakeups_of i (e ∷ es) m < 2 ^ 64
      → let (m', q', written, calls) = sub_hal_post_events api i now ans (e ∷ es) wakeup m q in
        (q'.wake_refs.wakelock_ref_count
          ≡ q.wake_refs.wakelock_ref_count + (if wakeup then wakeups_of i (e ∷ es) m else 0))
        × (held_after (is_counted q.wake_refs) calls ≡ is_counted q'.wake_refs)
  unfolding sub_hal_post_events create_scoped_wakelock destroy_scoped_wakelock
  sub_hal_post_events-counts i now ans e es false m q runs reset fits =
      let (events, n, m') = process_events api i (e ∷ es) m in
      let (refs, calls) = post-unlocked events n ans q in
      rw
        (
          callback_post_events-runs i ans e es (record { locked = false; created_at_time_ns = 0 }) m
              q runs,
          refs,
          calls,
        )
        (omega arith, refl)
  sub_hal_post_events-counts i now ans e es true m q runs reset fits =
      let (events, n, m') = process_events api i (e ∷ es) m in
      let w1 = (increment_ref_count now 1 q.wake_refs).0 in
      let (started, runs1) = increment-started now q.wake_refs runs in
      let s1 : PendingWrites (Event P) = record q { wake_refs = w1 } in
      let (refs, calls) = post-locked events n ans s1 in
      rw
        (
          started,
          callback_post_events-runs i ans e es (record { locked = true; created_at_time_ns = now })
              m s1 runs1,
          refs,
          calls,
        )
        (round_trip-counts now ans.now n q.wake_refs runs reset fits)
