-- ===== src/Multihal/Restart.antt =====
-- HalProxy::initializeCommon: what a new start leaves of the state before it.
use bosch_mems_android_hal.Common.{
  ℕ, suc, ◌≡◌, refl, ap, ◌∙◌, inl, inr, Bool, true, false, not, ◌&&◌, List, [], ◌∷◌, Option, none,
  Option-cases, Bool-cases, keys, get_elem?, ltb, arith,
}
use bosch_mems_android_hal.Aidl.Reports.{OperationMode}
use bosch_mems_android_hal.Multihal.Types.{Result, is_ok, SubHal}
use bosch_mems_android_hal.Multihal.Handles.{extract_sub_hal_index, clear_sub_hal_index}
use bosch_mems_android_hal.Multihal.HalProxy.{
  HalProxy, routed, at_place, is_sub_hal_index_valid, activate,
}
use bosch_mems_android_hal.Multihal.WakeRefs.{
  WakeRefs, WakeCall, decrement_ref_count, reset_shared_wakelock,
}
use bosch_mems_android_hal.Multihal.PendingWrites.{PendingWrites, finish_write, give_back}
use bosch_mems_android_hal.Multihal.Waiting.{waiting, IsValid}
use bosch_mems_android_hal.Multihal.Initialize.{
  InitAnswers, stop_threads, initialize_each, queues_result, disable_each, disable_all_sensors,
  initialize_common,
}

-- Without the threads the count stays, and the wake lock is not released.
decrement-stopped :
    (delta : ℕ) (start : Option ℕ) (w : WakeRefs)
    → w.threads_run ≡ false
    → decrement_ref_count delta start w ≡ (w, [])
unfolding decrement_ref_count
decrement-stopped delta start w stopped = rw stopped refl

record IsStopped {E : Type 0} (count : ℕ) (r : PendingWrites E × List WakeCall) : Type 0 where
  stopped : r.0.wake_refs.threads_run ≡ false
  counts : r.0.wake_refs.wakelock_ref_count ≡ count
  idle : r.0.writing ≡ none
  silent : r.1 ≡ []

reset-stopped :
    (now : ℕ) (w : WakeRefs)
    → w.threads_run ≡ false
    → reset_shared_wakelock now w ≡ (record w { wakelock_timeout_reset_time = now }, [])
unfolding reset_shared_wakelock
reset-stopped now w stopped = rw (decrement-stopped w.wakelock_ref_count none w stopped) refl

module _ {E : Type 0} (wakes : E → Bool) (queue_size : ℕ) where
  give_back-stopped :
      (success : Bool) (events : List E) (wakeups : ℕ) (w : WakeRefs)
      → w.threads_run ≡ false
      → give_back wakes queue_size success events wakeups w ≡ (w, [])
  unfolding give_back
  give_back-stopped success events wakeups w stopped =
      elim (Bool-cases (not success && ltb 0 wakeups)) [
        | inl e ↦ rw e (decrement-stopped _ none w stopped)
        | inr e ↦ rw e refl
      ]

  finish_write-IsStopped :
      (success : Bool) (s : PendingWrites E)
      → IsValid queue_size s
      → s.wake_refs.threads_run ≡ false
      → IsStopped s.wake_refs.wakelock_ref_count (finish_write wakes queue_size success s)
  unfolding finish_write
  finish_write-IsStopped success s valid stopped = elim (Option-cases s.writing) [
    | inl e ↦ rw e (record { stopped = stopped; counts = refl; idle = refl; silent = refl })
    | inr (n, e) ↦
        let (events, wakeups, rest, split, size) = valid.started n e in
        rw (e, split, give_back-stopped success events wakeups s.wake_refs stopped)
          (record { stopped = stopped; counts = refl; idle = refl; silent = refl })
  ]

  stop_threads-IsStopped :
      (success : Bool) (now : ℕ) (q : PendingWrites E)
      → IsValid queue_size q
      → IsStopped q.wake_refs.wakelock_ref_count (stop_threads wakes queue_size success now q)
  unfolding stop_threads
  stop_threads-IsStopped success now q valid =
      let halted : PendingWrites E = record q {
        wake_refs = record q.wake_refs { threads_run = false };
      } in
      let written =
        finish_write-IsStopped success halted
          (record { sized = valid.sized; started = valid.started }) refl in
      let (q1, calls) = finish_write wakes queue_size success halted in
      rw (reset-stopped now q1.wake_refs written.stopped, written.silent)
        (record {
          stopped = written.stopped;
          counts = written.counts;
          idle = written.idle;
          silent = refl;
        })

module _ {S R P M : Type 0} (hal : SubHal S R P M) where
  -- Whether all sub-HALs initialize, from place i on.
  abbrev pub all_initialize : ℕ → List S → Bool
  all_initialize i [] = true
  all_initialize i (s ∷ ss) = is_ok (hal.initialize i s).0 && all_initialize (suc i) ss

  initialize_each-result :
      (i : ℕ) (result : Result) (ss : List S)
      → is_ok (initialize_each hal i result ss).0 ≡ is_ok result && all_initialize i ss
  unfolding initialize_each
  initialize_each-result i result [] = ground arith
  initialize_each-result i result (s ∷ ss) = elim (Bool-cases (is_ok (hal.initialize i s).0)) [
    | inl e ↦ rw e (initialize_each-result (suc i) result ss)
    | inr e ↦ rw e (initialize_each-result (suc i) (hal.initialize i s).0 ss ∙ ground (arith, e))
  ]

  abbrev IsKept : (HalProxy S R → HalProxy S R) → HalProxy S R → Type 0
  IsKept f p = f p ≡ record p { sub_hal_list = (f p).sub_hal_list }

  routed-IsKept : (h : ℕ) (f : S → Result × S) (p : HalProxy S R) → IsKept (λ p. (routed h f p).1) p
  unfolding routed at_place
  routed-IsKept h f p = elim (Bool-cases (not (is_sub_hal_index_valid h p))) [
    | inl e ↦ rw e refl
    | inr e ↦ rw e (elim (Option-cases (get_elem? p.sub_hal_list (extract_sub_hal_index h))) [
      | inl none_there ↦ rw (none_there, at_place) refl
      | inr (s, there) ↦ rw (there, at_place) refl
    ])
  ]

  disable_each-IsKept : (hs : List ℕ) (p : HalProxy S R) → IsKept (disable_each hal hs) p
  unfolding disable_each activate
  disable_each-IsKept [] p = refl
  disable_each-IsKept (h ∷ hs) p =
      let kept = routed-IsKept h (hal.activate (clear_sub_hal_index h) false) p in
      let rest = disable_each-IsKept hs (activate hal h false p).1 in
      rest
      ∙ ap {A = HalProxy S R}
          (λ q. record q { sub_hal_list = (disable_each hal (h ∷ hs) p).sub_hal_list }) kept

  disable_all_sensors-IsKept : (p : HalProxy S R) → IsKept (disable_all_sensors hal) p
  unfolding disable_all_sensors
  disable_all_sensors-IsKept p =
      let p1 = disable_each hal (keys p.sensors) p in
      disable_each-IsKept (keys p1.dynamic_sensors) p1
      ∙ ap {A = HalProxy S R}
          (λ q. record q { sub_hal_list = (disable_all_sensors hal p).sub_hal_list })
          (disable_each-IsKept (keys p.sensors) p)

  module _ {E : Type 0} (wakes : E → Bool) (queue_size : ℕ) where
    -- A new start, from a valid queue, whatever was pending or under way, leaves a valid queue in which nothing waits and
    -- no write is under way, with the threads running. No dynamic sensors are left and the mode is normal;
    -- the sensors and the sub-HAL for direct channels stay. The result is OK exactly if the queues and
    -- their flags are there and all sub-HALs, once their sensors are disabled, initialize. But the wake lock keeps its count, and is not
    -- released, though no event waits any more: the code resets it after the end of the threads, where a
    -- decrement does nothing.
    pub initialize_common-restarts :
        (ans : InitAnswers) (success : Bool) (p : HalProxy S R) (q : PendingWrites E)
        → IsValid queue_size q
        → let (result, p', q', calls) = initialize_common hal wakes queue_size ans success p q in
          IsValid queue_size q'
          × (waiting q' ≡ [])
          × (q'.writing ≡ none)
          × (q'.wake_refs.threads_run ≡ true)
          × (p'.dynamic_sensors ≡ [])
          × (p'.current_operation_mode ≡ OperationMode.normal)
          × (p'.sensors ≡ p.sensors)
          × (p'.direct_channel_sub_hal ≡ p.direct_channel_sub_hal)
          × (is_ok result
              ≡ is_ok (queues_result ans)
                && all_initialize 0 (disable_all_sensors hal p).sub_hal_list)
          × (q'.wake_refs.wakelock_ref_count ≡ q.wake_refs.wakelock_ref_count)
          × (calls ≡ [])
    unfolding initialize_common
    initialize_common-restarts ans success p q valid =
        let end = stop_threads-IsStopped wakes queue_size success ans.joined_at q valid in
        let (q1, calls) = stop_threads wakes queue_size success ans.joined_at q in
        let kept = disable_all_sensors-IsKept p in
        let reset = reset-stopped ans.reset_at q1.wake_refs end.stopped in
        (
          record { sized = refl; started = λ n started. cc },
          rw end.idle refl,
          end.idle,
          refl,
          refl,
          refl,
          ap (λ r. r.sensors) kept,
          ap (λ r. r.direct_channel_sub_hal) kept,
          initialize_each-result 0 (queues_result ans) (disable_all_sensors hal p).sub_hal_list,
          ap (λ r. r.0.wakelock_ref_count) reset ∙ end.counts,
          rw (end.silent, reset) refl,
        )
