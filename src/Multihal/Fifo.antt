-- ===== src/Multihal/Fifo.antt =====
-- HalProxy's queue of pending writes: one sequence, first in and first out.
use mathlib.Core.List.{append-nil, append_assoc}
use bosch_mems_android_hal.Common.{
  ℕ, ◌+◌, ◌-◌, ◌≤◌, ◌≡◌, refl, sym, ap, ◌∙◌, min, Bool, true, false, inl, inr, List, [], ◌∷◌, ◌++◌,
  Option, none, some, length, take, drop, length-append, length-drop, ltb, ltb→lt, ltb→le, le→leb,
  Bool-cases, if◌then◌else◌, arith,
}
use bosch_mems_android_hal.Multihal.PendingWrites.{
  PendingWrites, PostAnswers, written_at_once, keeps_rest, post, start_write, finish_write,
  max_size_pending,
}
use bosch_mems_android_hal.Multihal.Waiting.{
  pending_events, waiting, accepted, IsValid, drop-append, drop-length, take-drop-append, take-all,
  take-past, take-swap, pending_events-append, waiting-push, written_at_once-cases,
}

module _ {E : Type 0} where
  post-fifo :
      (queue_size : ℕ) (events : List E) (n : ℕ) (locked : Bool) (ans : PostAnswers)
      (s : PendingWrites E)
      → IsValid queue_size s
      → let (s', written, calls) = post events n locked ans s in
        (written ++ waiting s' ≡ waiting s ++ accepted events ans s)
  unfolding post
  post-fifo q events n locked ans s ok =
      let first = written_at_once-cases q events ans s ok in
      elim (Bool-cases (keeps_rest events ans s)) [
        | inl e ↦
            rw (e, waiting-push q s (drop (written_at_once events ans s) events) n ok)
              (take-past events (written_at_once events ans s) (waiting s) first)
        | inr e ↦ rw e (take-swap events (written_at_once events ans s) (waiting s) first)
      ]

  post-IsValid :
      (queue_size : ℕ) (events : List E) (n : ℕ) (locked : Bool) (ans : PostAnswers)
      (s : PendingWrites E)
      → IsValid queue_size s
      → IsValid queue_size (post events n locked ans s).0
  unfolding post
  post-IsValid q events n locked ans s ok = elim (Bool-cases (keeps_rest events ans s)) [
    | inl e ↦ rw e record {
      sized =
          let w = written_at_once events ans s in
          rw (pending_events-append s.pending ((drop w events, n) ∷ []), append-nil (drop w events))
            (omega (
              arith,
              ok.sized,
              length-append (pending_events s.pending) (drop w events),
              length-drop w events,
            ));
      started = λ m f.
          let (front, wakeups, rest, split, size) = ok.started m f in
          (
            front,
            wakeups,
            rest ++ (drop (written_at_once events ans s) events, n) ∷ [],
            ap (λ l. l ++ (drop (written_at_once events ans s) events, n) ∷ []) split,
            size,
          );
    }
    | inr e ↦ rw e record { sized = ok.sized; started = ok.started }
  ]

  abbrev with_queue : PendingWrites E → Option ℕ → List (List E × ℕ) → PendingWrites E
  with_queue s w p = record s { writing = w; pending = p }

  hand_over-fifo :
      (queue_size : ℕ) (s : PendingWrites E) (events : List E) (n : ℕ) (rest : List (List E × ℕ))
      → IsValid queue_size (with_queue s none ((events, n) ∷ rest))
      → (runs : Bool)
      → let m = min (length events) queue_size in
        let next : PendingWrites E × List E =
          if runs
          then (with_queue s (some m) ((events, n) ∷ rest), take m events)
          else (with_queue s none ((events, n) ∷ rest), []) in
        let (s', handed) = next in
        IsValid queue_size s'
        × (handed ++ waiting s' ≡ waiting (with_queue s none ((events, n) ∷ rest)))
  hand_over-fifo q s events n rest ok false = (ok, refl)
  hand_over-fifo q s events n rest ok true = (
    record { sized = ok.sized; started = λ k g. (events, n, rest, refl, cc) },
    take-drop-append (min (length events) q) events (pending_events rest) (omega arith),
  )

  start_write-fields :
      (queue_size : ℕ) (s : PendingWrites E) (w : Option ℕ) (p : List (List E × ℕ))
      → IsValid queue_size (with_queue s w p)
      → let (s', handed) = start_write queue_size (with_queue s w p) in
        IsValid queue_size s' × (handed ++ waiting s' ≡ waiting (with_queue s w p))
  unfolding start_write
  start_write-fields q s (some n) p ok = (ok, refl)
  start_write-fields q s none [] ok = (ok, refl)
  start_write-fields q s none ((events, n) ∷ rest) ok =
      hand_over-fifo q s events n rest ok s.wake_refs.threads_run

  -- Handing over the first events that wait.
  start_write-fifo :
      (queue_size : ℕ) (s : PendingWrites E)
      → IsValid queue_size s
      → let (s', handed) = start_write queue_size s in
        IsValid queue_size s' × (handed ++ waiting s' ≡ waiting s)
  start_write-fifo q s ok = start_write-fields q s s.writing s.pending ok

  popped :
      (queue_size : ℕ) (events : List E) (n : ℕ) (rest : List (List E × ℕ))
      → pending_events
          (if ltb queue_size (length events) then (drop queue_size events, n) ∷ rest else rest)
        ≡ drop (min (length events) queue_size) (events ++ pending_events rest)
  popped q events n rest = elim (Bool-cases (ltb q (length events))) [
    | inl e ↦
        let less = ltb→lt q (length events) e in
        let m : min (length events) q ≡ q = omega (arith, less) in
        rw (e, m) (sym (drop-append q events (pending_events rest) (omega (arith, less))))
    | inr e ↦
        let le = ltb→le q (length events) e in
        let m : min (length events) q ≡ length events = omega (arith, le) in
        rw
          (
            e,
            m,
            drop-append (length events) events (pending_events rest) (omega arith),
            drop-length (length events) events (omega arith),
          )
          refl
  ]

  finish_write-fields :
      (wakes : E → Bool) (queue_size : ℕ) (success : Bool) (s : PendingWrites E) (w : Option ℕ)
      (p : List (List E × ℕ))
      → IsValid queue_size (with_queue s w p)
      → let s' = (finish_write wakes queue_size success (with_queue s w p)).0 in
        IsValid queue_size s' × (waiting s' ≡ waiting (with_queue s w p))
  unfolding finish_write
  finish_write-fields wakes q success s none p ok = (ok, refl)
  finish_write-fields wakes q success s (some m) [] ok = (ok, refl)
  finish_write-fields wakes q success s (some m) ((events, n) ∷ rest) ok =
      let (front, k, others, split, size) = ok.started m refl in
      let same : front ≡ events = cc in
      let m_is : m ≡ min (length events) q = size ∙ ap (λ l. min (length l) q) same in
      let left = popped q events n rest in
      (
        record {
          sized =
              rw (m_is, left)
                (omega (
                  arith,
                  ok.sized,
                  length-drop (min (length events) q) (events ++ pending_events rest),
                ));
          started = λ j g. cc;
        },
        left ∙ ap (λ j. drop j (events ++ pending_events rest)) (sym m_is),
      )

  -- A round ends by taking out what it handed over.
  finish_write-fifo :
      (wakes : E → Bool) (queue_size : ℕ) (success : Bool) (s : PendingWrites E)
      → IsValid queue_size s
      → let s' = (finish_write wakes queue_size success s).0 in
        IsValid queue_size s' × (waiting s' ≡ waiting s)
  finish_write-fifo wakes q success s ok =
      finish_write-fields wakes q success s s.writing s.pending ok

-- What can happen: a post, and the two parts of a round.
pub data Step (E : Type 0) : Type 0 where
  posts : List E → ℕ → Bool → PostAnswers → Step E
  starts : Step E
  finishes : Bool → Step E

module _ {E : Type 0} (wakes : E → Bool) (queue_size : ℕ) where
  -- A step, with the events that it hands to the message queue.
  unfoldable pub step : Step E → PendingWrites E → PendingWrites E × List E
  step (posts events n locked ans) s =
      let (s', handed, calls) = post events n locked ans s in (s', handed)
  step starts s = start_write queue_size s
  step (finishes success) s = ((finish_write wakes queue_size success s).0, [])

  unfoldable pub taken_in : Step E → PendingWrites E → List E
  taken_in (posts events n locked ans) s = accepted events ans s
  taken_in starts s = []
  taken_in (finishes success) s = []

  unfoldable pub run : List (Step E) → PendingWrites E → PendingWrites E × List E
  unfolding step
  run [] s = (s, [])
  run (t ∷ ts) s = let (s1, handed) = step t s in let (s2, more) = run ts s1 in (s2, handed ++ more)

  -- The events of the posts that are not dropped for want of room, in the order of the posts.
  unfoldable pub all_taken_in : List (Step E) → PendingWrites E → List E
  unfolding step taken_in
  all_taken_in [] s = []
  all_taken_in (t ∷ ts) s = taken_in t s ++ all_taken_in ts (step t s).0

  step-fifo :
      (t : Step E) (s : PendingWrites E)
      → IsValid queue_size s
      → IsValid queue_size (step t s).0
        × ((step t s).1 ++ waiting (step t s).0 ≡ waiting s ++ taken_in t s)
  unfolding step taken_in
  step-fifo (posts events n locked ans) s ok = (
    post-IsValid queue_size events n locked ans s ok,
    post-fifo queue_size events n locked ans s ok,
  )
  step-fifo starts s ok =
      let (ok', e) = start_write-fifo queue_size s ok in (ok', e ∙ sym (append-nil (waiting s)))
  step-fifo (finishes success) s ok =
      let (ok', e) = finish_write-fifo wakes queue_size success s ok in
      (ok', e ∙ sym (append-nil (waiting s)))

  -- The queue keeps the order, however posts come between the parts of a round: from a valid state on, the
  -- events handed to the message queue, followed by those that still wait, are those that
  -- waited at first, followed by those of the posts that were not dropped for want of room. The state
  -- stays valid: the size is that of all vectors together.
  pub run-fifo :
      (ts : List (Step E)) (s : PendingWrites E)
      → IsValid queue_size s
      → let (s', handed) = run ts s in
        IsValid queue_size s' × (handed ++ waiting s' ≡ waiting s ++ all_taken_in ts s)
  unfolding run all_taken_in
  run-fifo [] s ok = (ok, sym (append-nil (waiting s)))
  run-fifo (t ∷ ts) s ok =
      let (ok1, e1) = step-fifo t s ok in
      let (ok2, e2) = run-fifo ts (step t s).0 ok1 in
      (
        ok2,
        append_assoc (step t s).1 (run ts (step t s).0).1 _
            ∙ ap (λ l. (step t s).1 ++ l) e2
            ∙ sym (append_assoc (step t s).1 (waiting (step t s).0) _)
            ∙ ap (λ l. l ++ all_taken_in ts (step t s).0) e1
            ∙ append_assoc (waiting s) (taken_in t s) _,
      )

  -- A post is taken in as a whole where the pending events and its own are at most the maximum.
  pub accepted-all :
      (events : List E) (ans : PostAnswers) (s : PendingWrites E)
      → s.size_pending + length events ≤ max_size_pending
      → accepted events ans s ≡ events
  unfolding keeps_rest
  accepted-all events ans s fits =
      let n = written_at_once events ans s in
      elim (Bool-cases (ltb n (length events))) [
        | inl e ↦
            rw
              (
                keeps_rest,
                e,
                le→leb (s.size_pending + (length events - n)) max_size_pending
                    (omega (arith, fits)),
              )
              refl
        | inr e ↦ rw (keeps_rest, e) (take-all n events (ltb→le n (length events) e))
      ]
