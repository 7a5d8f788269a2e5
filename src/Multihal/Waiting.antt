-- ===== src/Multihal/Waiting.antt =====
-- HalProxy's queue of pending writes as one sequence: what waits, and when the state is valid.
use mathlib.Core.List.{append-nil, append_assoc}
use bosch_mems_android_hal.Common.{
  ℕ, zero, suc, ◌≤◌, ◌≡◌, refl, sym, ap, ◌∙◌, min, ◌⊎◌, inl, inr, List, [], ◌∷◌, ◌++◌, Option, none,
  some, length, take, drop, length-append, take-append-drop, Option-cases, List-cases,
  if◌then◌else◌, arith,
}
use bosch_mems_android_hal.Multihal.PendingWrites.{
  PendingWrites, PostAnswers, written_at_once, keeps_rest,
}

-- What the code keeps as a queue of vectors, as one sequence.
abbrev pub pending_events {ℓ} : {E : Type ℓ} → List (List E × ℕ) → List E
pending_events [] = []
pending_events ((events, n) ∷ rest) = events ++ pending_events rest

abbrev pub in_flight : Option ℕ → ℕ
in_flight none = 0
in_flight (some n) = n

module _ {ℓ} {A : Type ℓ} where
  pub drop-append : (n : ℕ) (xs ys : List A) → n ≤ length xs → drop n (xs ++ ys) ≡ drop n xs ++ ys
  drop-append zero xs ys h = refl
  drop-append (suc n) [] ys h = elim h [ ]
  drop-append (suc n) (x ∷ xs) ys h = drop-append n xs ys (omega arith)

  pub drop-length : (n : ℕ) (xs : List A) → length xs ≤ n → drop n xs ≡ []
  drop-length zero [] h = refl
  drop-length zero (x ∷ xs) h = elim h [ ]
  drop-length (suc n) [] h = refl
  drop-length (suc n) (x ∷ xs) h = drop-length n xs (omega arith)

  pub take-all : (n : ℕ) (xs : List A) → length xs ≤ n → take n xs ≡ xs
  take-all zero [] h = refl
  take-all zero (x ∷ xs) h = elim h [ ]
  take-all (suc n) [] h = refl
  take-all (suc n) (x ∷ xs) h = ap (λ l. x ∷ l) (take-all n xs (omega arith))

  pub pending_events-append :
      (xs ys : List (List A × ℕ))
      → pending_events (xs ++ ys) ≡ pending_events xs ++ pending_events ys
  pending_events-append [] ys = refl
  pending_events-append ((events, n) ∷ xs) ys =
      ap (λ l. events ++ l) (pending_events-append xs ys)
      ∙ sym (append_assoc events (pending_events xs) (pending_events ys))

  pub take-drop-append :
      (n : ℕ) (xs ys : List A) → n ≤ length xs → take n xs ++ drop n (xs ++ ys) ≡ xs ++ ys
  take-drop-append n xs ys h =
      rw (drop-append n xs ys h)
        (sym (append_assoc (take n xs) (drop n xs) ys) ∙ ap (λ l. l ++ ys) (take-append-drop n xs))

  pub take-past :
      (xs : List A) (n : ℕ) (w : List A)
      → (w ≡ []) ⊎ (n ≡ 0)
      → take n xs ++ (w ++ drop n xs) ≡ w ++ xs
  take-past xs n w (inl e) = rw e (take-append-drop n xs)
  take-past xs n w (inr e) = rw e refl

  pub take-swap :
      (xs : List A) (n : ℕ) (w : List A) → (w ≡ []) ⊎ (n ≡ 0) → take n xs ++ w ≡ w ++ take n xs
  take-swap xs n w (inl e) = rw e (append-nil (take n xs))
  take-swap xs n w (inr e) = rw e (sym (append-nil w))

module _ {E : Type 0} where
  -- The events that are still to be handed to the message queue.
  abbrev pub waiting : PendingWrites E → List E
  waiting s = drop (in_flight s.writing) (pending_events s.pending)

  -- The events of a post that are not dropped for want of room.
  abbrev pub accepted : List E → PostAnswers → PendingWrites E → List E
  accepted events ans s =
      if keeps_rest events ans s then events else take (written_at_once events ans s) events

  pub record IsValid (queue_size : ℕ) (s : PendingWrites E) : Type 0 where
    pub sized : s.size_pending ≡ length (pending_events s.pending)
    pub started :
        (n : ℕ)
        → s.writing ≡ some n
        → (events : List E) × (wakeups : ℕ) × (rest : List (List E × ℕ)) × (s.pending
            ≡ (events, wakeups) ∷ rest)
          × (n ≡ min (length events) queue_size)

  pub in_flight-fits :
      (queue_size : ℕ) (s : PendingWrites E)
      → IsValid queue_size s
      → in_flight s.writing ≤ length (pending_events s.pending)
  in_flight-fits q s ok = elim (Option-cases s.writing) [
    | inl e ↦ rw e (omega arith)
    | inr (n, e) ↦
        let (events, wakeups, rest, split, m) = ok.started n e in
        rw (e, split) (omega (arith, m, length-append events (pending_events rest)))
  ]

  pub waiting-push :
      (queue_size : ℕ) (s : PendingWrites E) (events : List E) (n : ℕ)
      → IsValid queue_size s
      → drop (in_flight s.writing) (pending_events (s.pending ++ (events, n) ∷ []))
        ≡ waiting s ++ events
  waiting-push q s events n ok =
      rw
        (
          pending_events-append s.pending ((events, n) ∷ []),
          append-nil events,
          drop-append (in_flight s.writing) (pending_events s.pending) events
              (in_flight-fits q s ok),
        )
        refl

  -- A post writes to the message queue at once only where nothing waits.
  pub written_at_once-cases :
      (queue_size : ℕ) (events : List E) (ans : PostAnswers) (s : PendingWrites E)
      → IsValid queue_size s
      → (waiting s ≡ []) ⊎ (written_at_once events ans s ≡ 0)
  unfolding written_at_once
  written_at_once-cases q events ans s ok = elim (List-cases s.pending) [
    | inl e ↦ inl (rw e (drop-length (in_flight s.writing) [] (omega arith)))
    | inr (x, xs, e) ↦ inr (rw e refl)
  ]
