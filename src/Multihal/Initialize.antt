-- ===== src/Multihal/Initialize.antt =====
-- initializeCommon of sensors/multihal/2.X/HalProxy.cpp, with stopThreads, disableAllSensors and the loop of the
-- wake lock thread. Joining the threads ends the round of handlePendingWrites that is under way. The
-- queues of the framework and their flags are what they answer.
use bosch_mems_android_hal.Common.{
  ℕ, suc, ◌-◌, Bool, true, false, ◌&&◌, List, [], ◌∷◌, ◌++◌, Option, none, some, keys, ltb,
  if◌then◌else◌,
}
use bosch_mems_android_hal.Aidl.Reports.{OperationMode}
use bosch_mems_android_hal.Multihal.Types.{Result, ok, bad_value, is_ok, SubHal}
use bosch_mems_android_hal.Multihal.HalProxy.{HalProxy, activate}
use bosch_mems_android_hal.Multihal.WakeRefs.{
  WakeRefs, WakeCall, decrement_ref_count, reset_shared_wakelock,
}
use bosch_mems_android_hal.Multihal.PendingWrites.{PendingWrites, finish_write}

-- Whether the two event flags are created, whether the callback and the queues are there, whether
-- mEventQueueFlag is set, and the readings of the clock.
pub record InitAnswers : Type 0 where
  pub event_flag_created : Bool
  pub wakelock_flag_created : Bool
  pub queues_present : Bool
  pub event_flag_present : Bool
  pub joined_at : ℕ
  pub reset_at : ℕ

-- sharedWakelockDidTimeout: `none` if it did, otherwise the time left. kWakelockTimeoutNs is a parameter.
unfoldable pub shared_wakelock_did_timeout : ℕ → ℕ → WakeRefs → Option ℕ
shared_wakelock_did_timeout timeout_ns now w =
    let duration = now - w.wakelock_timeout_start_time in
    if ltb timeout_ns duration then none else some (timeout_ns - duration)

-- A round of handleWakelocks that is not a wait. The lock is free during the blocking read: `read` is the
-- number that it gives, if it succeeds, and `later` the state after it.
unfoldable pub wakelock_round : ℕ → ℕ → Option ℕ → WakeRefs → WakeRefs → WakeRefs × List WakeCall
unfolding shared_wakelock_did_timeout
wakelock_round timeout_ns now read later w = elim (shared_wakelock_did_timeout timeout_ns now w) [
  | none ↦ reset_shared_wakelock now w
  | some left ↦ elim read [ none ↦ (later, []) | some n ↦ decrement_ref_count n none later ]
]

-- stopThreads, up to the end of the two threads: the wake lock thread resets the wake lock at its end.
unfoldable pub stop_threads :
    {E : Type 0} → (E → Bool) → ℕ → Bool → ℕ → PendingWrites E → PendingWrites E × List WakeCall
stop_threads {E} wakes queue_size success now q =
    let stopped : PendingWrites E = record q {
      wake_refs = record q.wake_refs { threads_run = false };
    } in
    let (q1, calls) = finish_write wakes queue_size success stopped in
    let (w, more) = reset_shared_wakelock now q1.wake_refs in
    (record q1 { wake_refs = w }, calls ++ more)

unfoldable pub queues_result : InitAnswers → Result
queues_result ans =
    if ans.event_flag_created && ans.wakelock_flag_created && ans.queues_present
      && ans.event_flag_present
    then ok
    else bad_value

module _ {S R P M : Type 0} (hal : SubHal S R P M) where
  -- The loops of disableAllSensors.
  unfoldable pub disable_each : List ℕ → HalProxy S R → HalProxy S R
  disable_each [] p = p
  disable_each (h ∷ hs) p = disable_each hs (activate hal h false p).1

  unfoldable pub disable_all_sensors : HalProxy S R → HalProxy S R
  unfolding disable_each
  disable_all_sensors p =
      let p1 = disable_each (keys p.sensors) p in disable_each (keys p1.dynamic_sensors) p1

  -- The loop that initializes the sub-HALs from place i on: the result is that of the last one that fails.
  unfoldable pub initialize_each : ℕ → Result → List S → Result × List S
  initialize_each i result [] = (result, [])
  initialize_each i result (s ∷ ss) =
      let (current, s') = hal.initialize i s in
      let (result', ss') = initialize_each (suc i) (if is_ok current then result else current) ss in
      (result', s' ∷ ss')

  module _ {E : Type 0} (wakes : E → Bool) (queue_size : ℕ) where
    -- `success` is the answer of the blocking write that is under way, if one is.
    unfoldable pub initialize_common :
        InitAnswers
        → Bool
        → HalProxy S R
        → PendingWrites E
        → Result × HalProxy S R × PendingWrites E × List WakeCall
    unfolding stop_threads disable_all_sensors initialize_each queues_result
    initialize_common ans success p q =
        let (q1, calls) = stop_threads wakes queue_size success ans.joined_at q in
        let (w, more) = reset_shared_wakelock ans.reset_at q1.wake_refs in
        let p1 = disable_all_sensors p in
        let (result, hals) = initialize_each 0 (queues_result ans) p1.sub_hal_list in
        (
          result,
          record p1 {
            sub_hal_list = hals;
            dynamic_sensors = [];
            current_operation_mode = OperationMode.normal;
          },
          record q1 { wake_refs = record w { threads_run = true }; pending = []; size_pending = 0 },
          calls ++ more,
        )
