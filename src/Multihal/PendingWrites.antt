-- ===== src/Multihal/PendingWrites.antt =====
-- The queue of the events that wait to be written, of sensors/multihal/2.X/HalProxy.{h,cpp}:
-- postEventsToMessageQueue and handlePendingWrites, which unlocks the mutex during the blocking write, so that
-- a round of it is two steps, with posts between them. The message queue is what its calls answer.
use bosch_mems_android_hal.Common.{
  ℕ, suc, ◌+◌, ◌-◌, min, max, Bool, not, ◌&&◌, List, [], ◌∷◌, ◌++◌, Option, none, some, length,
  take, drop, is_empty, ltb, leb, if◌then◌else◌,
}
use bosch_mems_android_hal.Multihal.WakeRefs.{
  WakeRefs, WakeCall, increment_ref_count, decrement_ref_count,
}

-- The events and, for each vector, its number of wake up events. `writing` is the numToWrite of the thread
-- while the mutex is unlocked.
pub record PendingWrites (E : Type 0) : Type 0 where
  pub wake_refs : WakeRefs
  pub pending : List (List E × ℕ)
  pub size_pending : ℕ
  pub most_observed : ℕ
  pub writing : Option ℕ

-- availableToWrite, whether the write succeeds, and the clock.
pub record PostAnswers : Type 0 where
  pub available : ℕ
  pub writes : Bool
  pub now : ℕ

-- kMaxSizePendingWriteEventsQueue
abbrev pub max_size_pending : ℕ
max_size_pending = 100000

module _ {E : Type 0} where
  -- numToWrite of postEventsToMessageQueue, after the write.
  unfoldable pub written_at_once : List E → PostAnswers → PendingWrites E → ℕ
  written_at_once events ans s =
      if is_empty s.pending
      then (let n = min (length events) ans.available in if ltb 0 n && ans.writes then n else 0)
      else 0

  -- Whether the rest is kept.
  unfoldable pub keeps_rest : List E → PostAnswers → PendingWrites E → Bool
  unfolding written_at_once
  keeps_rest events ans s =
      let n = written_at_once events ans s in
      ltb n (length events) && leb (s.size_pending + (length events - n)) max_size_pending

  -- The results are the events written to the message queue and the calls on the wake lock.
  unfoldable pub post :
      List E → ℕ → Bool → PostAnswers → PendingWrites E → PendingWrites E × List E × List WakeCall
  unfolding written_at_once keeps_rest
  post events num_wakeup_events is_locked ans s =
      let n = written_at_once events ans s in
      let size = s.size_pending + (length events - n) in
      let (refs, calls, started) =
        if is_locked
        then increment_ref_count ans.now num_wakeup_events s.wake_refs
        else (s.wake_refs, [], none) in
      let s1 : PendingWrites E = record s { wake_refs = refs } in
      (
        if keeps_rest events ans s
            then record s1 {
              pending = s.pending ++ (drop n events, num_wakeup_events) ∷ [];
              size_pending = size;
              most_observed = max s.most_observed size;
            }
            else s1,
        take n events,
        calls,
      )

  -- A round of handlePendingWrites up to the blocking write, to a queue of the given size: the events that it
  -- hands to the message queue. The thread waits where nothing is pending.
  unfoldable pub start_write : ℕ → PendingWrites E → PendingWrites E × List E
  start_write queue_size s = elim s.writing [
    | some n ↦ (s, [])
    | none ↦ elim s.pending [
      | [] ↦ (s, [])
      | (events, wakeups) ∷ rest ↦
          if s.wake_refs.threads_run
          then (
            record s { writing = some (min (length events) queue_size) },
            take (min (length events) queue_size) events,
          )
          else (s, [])
    ]
  ]

  -- countNumWakeupEvents: `wakes` says whether the sensor of an event has the flag WAKE_UP. That the lookup
  -- makes an entry for an unknown sensor is left out.
  unfoldable pub count_wakeups : (E → Bool) → List E → ℕ
  count_wakeups wakes [] = 0
  count_wakeups wakes (e ∷ events) =
      if wakes e then suc (count_wakeups wakes events) else count_wakeups wakes events

  -- The count that a failed write gives back.
  unfoldable pub give_back :
      (E → Bool) → ℕ → Bool → List E → ℕ → WakeRefs → WakeRefs × List WakeCall
  unfolding count_wakeups
  give_back wakes queue_size success events wakeups refs =
      if not success && ltb 0 wakeups
      then decrement_ref_count
          (if ltb queue_size (length events)
            then count_wakeups wakes (take queue_size events)
            else wakeups)
          none refs
      else (refs, [])

  -- The rest of the round, with the answer of the blocking write.
  unfoldable pub finish_write :
      (E → Bool) → ℕ → Bool → PendingWrites E → PendingWrites E × List WakeCall
  unfolding give_back
  finish_write wakes queue_size success s = elim s.writing [
    | none ↦ (s, [])
    | some n ↦ elim s.pending [
      | [] ↦ (s, [])
      | (events, wakeups) ∷ rest ↦
          let (refs, calls) = give_back wakes queue_size success events wakeups s.wake_refs in
          (
            record s {
              wake_refs = refs;
              writing = none;
              size_pending = s.size_pending - n;
              pending =
                  if ltb queue_size (length events)
                  then (drop queue_size events, wakeups) ∷ rest
                  else rest;
            },
            calls,
          )
    ]
  ]
