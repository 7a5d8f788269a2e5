-- ===== src/Multihal/Drain.antt =====
-- The rounds of HalProxy::handlePendingWrites empty the queue of pending writes.
use mathlib.Core.List.{append-nil}
use bosch_mems_android_hal.Common.{
  ℕ, suc, ◌+◌, ◌-◌, ◌≤◌, ◌<◌, ◌≡◌, refl, subst, sym, ap, ◌∙◌, Bool, true, not, ◌&&◌, inl, inr, List,
  [], ◌∷◌, ◌++◌, Option, none, length, drop, length-append, length-drop, ltb, ltb→lt, Bool-cases,
  if◌then◌else◌, arith,
}
use bosch_mems_android_hal.Multihal.WakeRefs.{WakeRefs, decrement_ref_count}
use bosch_mems_android_hal.Multihal.PendingWrites.{
  PendingWrites, start_write, finish_write, give_back,
}
use bosch_mems_android_hal.Multihal.Waiting.{
  pending_events, waiting, in_flight, IsValid, drop-length,
}
use bosch_mems_android_hal.Multihal.Fifo.{
  Step, starts, finishes, step, run, taken_in, all_taken_in, run-fifo,
}

-- Each vector counts one more than its events.
vectors_size : {E : Type 0} → List (List E × ℕ) → ℕ
vectors_size [] = 0
vectors_size ((events, n) ∷ rest) = suc (length events) + vectors_size rest

vectors_size-is :
    {E : Type 0} (p : List (List E × ℕ)) → vectors_size p ≡ length p + length (pending_events p)
unfolding vectors_size
vectors_size-is [] = refl
vectors_size-is ((events, n) ∷ rest) =
    omega (arith, vectors_size-is rest, length-append events (pending_events rest))

decrement-threads :
    (delta : ℕ) (start : Option ℕ) (w : WakeRefs)
    → (decrement_ref_count delta start w).0.threads_run ≡ w.threads_run
unfolding decrement_ref_count
decrement-threads delta start w = ground arith

module _ {E : Type 0} (wakes : E → Bool) (queue_size : ℕ) where
  -- Rounds of the thread, with the answers of their blocking writes.
  abbrev pub rounds : List Bool → List (Step E)
  rounds [] = []
  rounds (success ∷ answers) = starts ∷ finishes success ∷ rounds answers

  give_back-threads :
      (success : Bool) (events : List E) (wakeups : ℕ) (w : WakeRefs)
      → (give_back wakes queue_size success events wakeups w).0.threads_run ≡ w.threads_run
  unfolding give_back
  give_back-threads success events wakeups w = elim (Bool-cases (not success && ltb 0 wakeups)) [
    | inl e ↦ rw e (decrement-threads _ none w)
    | inr e ↦ rw e refl
  ]

  abbrev after_round : Bool → PendingWrites E → PendingWrites E
  after_round success s =
      (step wakes queue_size (finishes success) (step wakes queue_size starts s).0).0

  record IsReady (s : PendingWrites E) : Type 0 where
    idle : s.writing ≡ none
    runs : s.wake_refs.threads_run ≡ true

  abbrev IsSmaller : Bool → PendingWrites E → Type 0
  IsSmaller success s =
      IsReady (after_round success s)
      × (vectors_size (after_round success s).pending ≤ vectors_size s.pending - 1)

  popped-smaller :
      (events : List E) (n : ℕ) (rest : List (List E × ℕ))
      → 0 < queue_size
      → vectors_size
          (if ltb queue_size (length events) then (drop queue_size events, n) ∷ rest else rest)
        ≤ length events + vectors_size rest
  unfolding vectors_size
  popped-smaller events n rest pos = elim (Bool-cases (ltb queue_size (length events))) [
    | inl e ↦
        rw e
          (omega (arith, length-drop queue_size events, ltb→lt queue_size (length events) e, pos))
    | inr e ↦ rw e (omega arith)
  ]

  abbrev made_ready : PendingWrites E → List (List E × ℕ) → PendingWrites E
  made_ready s p = record s {
    writing = none;
    pending = p;
    wake_refs = record s.wake_refs { threads_run = true };
  }

  round-fields :
      (success : Bool) (s : PendingWrites E) (p : List (List E × ℕ))
      → 0 < queue_size
      → IsSmaller success (made_ready s p)
  unfolding step start_write finish_write vectors_size
  round-fields success s [] pos = (record { idle = refl; runs = refl }, omega arith)
  round-fields success s ((events, n) ∷ rest) pos = (
    record { idle = refl; runs = give_back-threads success events n (made_ready s []).wake_refs },
    omega (arith, popped-smaller events n rest pos),
  )

  round-IsSmaller :
      (success : Bool) (s : PendingWrites E) → 0 < queue_size → IsReady s → IsSmaller success s
  round-IsSmaller success s pos ready =
      let same : s ≡ made_ready s s.pending = λ i. record s {
        writing = ready.idle i;
        wake_refs = record s.wake_refs { threads_run = ready.runs i };
      } in
      subst (IsSmaller success) (sym same) (round-fields success s s.pending pos)

  vectors_size-zero : (p : List (List E × ℕ)) → vectors_size p ≤ 0 → p ≡ []
  unfolding vectors_size
  vectors_size-zero [] h = refl
  vectors_size-zero ((events, n) ∷ rest) h = ground arith

  rounds-empty :
      (answers : List Bool) (s : PendingWrites E)
      → 0 < queue_size
      → IsReady s
      → vectors_size s.pending ≤ length answers
      → (run wakes queue_size (rounds answers) s).0.pending ≡ []
  unfolding run
  rounds-empty [] s pos ready fits = vectors_size-zero s.pending fits
  rounds-empty (success ∷ answers) s pos ready fits =
      let (ready', less) = round-IsSmaller success s pos ready in
      rounds-empty answers (after_round success s) pos ready' (omega (arith, less, fits))

  rounds-taken :
      (answers : List Bool) (s : PendingWrites E)
      → all_taken_in wakes queue_size (rounds answers) s ≡ []
  unfolding all_taken_in taken_in
  rounds-taken [] s = refl
  rounds-taken (success ∷ answers) s = rounds-taken answers (after_round success s)

  -- The rounds of the thread empty the queue: from a valid state in which the threads run and no write is
  -- under way, with a message queue that holds at least one event, as many rounds as there are pending
  -- vectors and pending events together leave nothing, whatever their blocking writes answer, and hand over exactly the
  -- events that waited, in their order.
  pub rounds-drain :
      (answers : List Bool) (s : PendingWrites E)
      → IsValid queue_size s
      → 0 < queue_size
      → s.writing ≡ none
      → s.wake_refs.threads_run ≡ true
      → length s.pending + s.size_pending ≤ length answers
      → let (s', handed) = run wakes queue_size (rounds answers) s in
        (s'.pending ≡ []) × (s'.size_pending ≡ 0) × (handed ≡ waiting s)
  rounds-drain answers s ok pos idle runs fits =
      let empty =
        rounds-empty answers s pos (record { idle = idle; runs = runs })
          (omega (arith, fits, ok.sized, vectors_size-is s.pending)) in
      let (s', handed) = run wakes queue_size (rounds answers) s in
      let (ok', order) = run-fifo wakes queue_size (rounds answers) s ok in
      (
        empty,
        ok'.sized ∙ ap (λ p. length (pending_events p)) empty,
        sym (append-nil handed)
            ∙ ap (λ l. handed ++ l)
                (sym (
                  ap (λ p. drop (in_flight s'.writing) (pending_events p)) empty
                  ∙ drop-length (in_flight s'.writing) [] (omega arith)))
            ∙ order
            ∙ ap (λ l. waiting s ++ l) (rounds-taken answers s)
            ∙ append-nil (waiting s),
      )
