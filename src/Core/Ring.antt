-- ===== src/Core/Ring.antt =====
-- LockfreeBuffer::write: the ring holds the latest events, each with its running number.
use bosch_mems_android_hal.Common.{
  ℕ, zero, suc, ◌+◌, ◌/◌, ◌%◌, ◌^◌, ◌≤◌, ◌<◌, ◌≡◌, ◌≢◌, refl, List, [], ◌∷◌, ◌++◌, some, arith,
  length, get_elem?, length-set, get_elem?-set_self, get_elem?-set_ne, length-append, leb, ◌∙◌, ◌⊎◌,
  inl, inr, sym, ap, Bool-cases, leb→le, leb→lt, if◌then◌else◌, ◌-◌, ◌==◌, false, length-replicate,
}
use mathlib.Core.List.{append-nil, append_assoc}
use native.Mathlib.Nat.{mod-lt}
use bosch_mems_android_hal.Core.DirectChannel.{
  LockfreeBuffer, make_buffer, write_one, write_loop, write,
}

pos→== : (n : ℕ) → 0 < n → (n == 0) ≡ false
pos→== n h = ground arith

mod_ne : (j d n : ℕ) → 0 < d → d < n → (j + d) % n ≢ j % n
mod_ne j d n h k = grind arith

mod_next : (m n : ℕ) → 0 < n → (n ≤ m % n + 1) → (m + 1) % n ≡ 0
mod_next m n h k = grind arith

mod_next' : (m n : ℕ) → m % n + 1 < n → (m + 1) % n ≡ m % n + 1
mod_next' m n h = grind arith

wrap_position : (m n p : ℕ) → 0 < n → p ≡ m % n → (if leb n (p + 1) then 0 else p + 1) ≡ (m + 1) % n
wrap_position m n p h e = elim (Bool-cases (leb n (p + 1))) [
  | inl t ↦ rw t (sym (mod_next m n h (omega (arith, leb→le n (p + 1) t))))
  | inr f ↦ rw f (ap (λ q. q + 1) e ∙ sym (mod_next' m n (omega (arith, leb→lt n (p + 1) f))))
]

old_position : (m n p j : ℕ) → p ≡ m % n → j < m → m + 1 ≤ j + n → p ≢ j % n
old_position m n p j e h k eq =
    mod_ne j (m - j) n (omega arith) (omega arith)
      (ap (λ q. q % n) (let s : j + (m - j) ≡ m = omega arith in s) ∙ sym e ∙ eq)

module _ {ℓ} {E : Type ℓ} where
  -- The buffer after the events `hs`, oldest first: each of the latest `size` events stands at its place.
  pub record Holds (hs : List E) (b : LockfreeBuffer E) : Type ℓ where
    pub room : 0 < b.size
    pub length_slots : length b.slots ≡ b.size
    pub position : b.write_pos ≡ length hs % b.size
    pub count : b.counter ≡ (1 + length hs) % 2 ^ 32
    pub latest :
        (j : ℕ) (e : E)
        → get_elem? hs j ≡ some e
        → length hs ≤ j + b.size
        → get_elem? b.slots (j % b.size) ≡ some (record { event = e; reserved0 = (1 + j) % 2 ^ 32 })

  get_elem?-snoc :
      (hs : List E) (e x : E) (j : ℕ)
      → get_elem? (hs ++ e ∷ []) j ≡ some x
      → ((j < length hs) × (get_elem? hs j ≡ some x)) ⊎ ((j ≡ length hs) × (e ≡ x))
  get_elem?-snoc [] e x zero h = ground arith
  get_elem?-snoc [] e x (suc j) h = cc
  get_elem?-snoc (y ∷ hs) e x zero h = inl (omega arith, h)
  get_elem?-snoc (y ∷ hs) e x (suc j) h = shift (get_elem?-snoc hs e x j h)
    where
      shift :
          ((j < length hs) × (get_elem? hs j ≡ some x)) ⊎ ((j ≡ length hs) × (e ≡ x))
          → ((suc j < length (y ∷ hs)) × (get_elem? (y ∷ hs) (suc j) ≡ some x))
            ⊎ ((suc j ≡ length (y ∷ hs)) × (e ≡ x))
      shift (inl (l, q)) = inl (omega arith, q)
      shift (inr (l, q)) = inr (omega arith, q)

  position-lt : {hs : List E} (b : LockfreeBuffer E) → Holds hs b → b.write_pos < length b.slots
  position-lt {hs} b h =
      omega (arith, h.position, h.length_slots, h.room, mod-lt (length hs) h.room)

  -- One write, in the terms of the invariant.
  write_one-Holds :
      (hs : List E) (e : E) (b : LockfreeBuffer E)
      → Holds hs b
      → Holds (hs ++ e ∷ []) (write_one e b)
  unfolding write_one
  write_one-Holds hs e b h = record {
    room = h.room;
    length_slots = length-set b.slots b.write_pos _ ∙ h.length_slots;
    position =
        wrap_position (length hs) b.size b.write_pos h.room h.position
        ∙ ap (λ n. n % b.size) (sym len);
    count = omega (arith, h.count, len);
    latest = at;
  }
    where
      len : length (hs ++ e ∷ []) ≡ length hs + 1
      len = length-append hs (e ∷ [])

      at :
          (j : ℕ) (x : E)
          → get_elem? (hs ++ e ∷ []) j ≡ some x
          → length (hs ++ e ∷ []) ≤ j + b.size
          → get_elem? (write_one e b).slots (j % b.size)
            ≡ some (record { event = x; reserved0 = (1 + j) % 2 ^ 32 })
      at j x q l = elim (get_elem?-snoc hs e x j q) [
        | inl (below, q') ↦
            get_elem?-set_ne b.slots _
              (old_position (length hs) b.size b.write_pos j h.position below (omega (arith, len)))
            ∙ h.latest j x q' (omega (arith, len))
        | inr (last, same) ↦
            let here : j % b.size ≡ b.write_pos = ap (λ k. k % b.size) last ∙ sym h.position in
            let number : b.counter ≡ (1 + j) % 2 ^ 32 =
              h.count ∙ ap (λ k. (1 + k) % 2 ^ 32) (sym last) in
            rw here (
              get_elem?-set_self b.slots b.write_pos _ (position-lt b h)
              ∙ ap some (λ i. record { event = same i; reserved0 = number i }))
      ]

  write_loop-Holds :
      (es hs : List E) (b : LockfreeBuffer E) → Holds hs b → Holds (hs ++ es) (write_loop es b)
  unfolding write_loop
  write_loop-Holds [] hs b h = rw (append-nil hs) h
  write_loop-Holds (e ∷ es) hs b h =
      rw (← append_assoc hs (e ∷ []) es)
        (write_loop-Holds es (hs ++ e ∷ []) (write_one e b) (write_one-Holds hs e b h))

  make_buffer-Holds :
      (zero_event : E) (event_size bytes : ℕ)
      → 0 < bytes / event_size
      → Holds [] (make_buffer zero_event event_size bytes)
  unfolding make_buffer
  make_buffer-Holds zero_event event_size bytes h = record {
    room = h;
    length_slots = length-replicate (bytes / event_size) _;
    position = omega arith;
    count = refl;
    latest = λ j e q l. cc q;
  }

  -- On a new buffer with room for at least one event, after any writes `es`: the latest events, as many
  -- as there is room for, stand in the ring, the j-th at place j modulo the size and with the number j + 1
  -- (both from 0, the number modulo 2 ^ 32); the next place and number go on from there.
  pub write-Holds :
      (zero_event : E) (event_size bytes : ℕ) (es : List E)
      → 0 < bytes / event_size
      → Holds es (write es (make_buffer zero_event event_size bytes))
  unfolding write
  write-Holds zero_event event_size bytes es h =
      let b = make_buffer zero_event event_size bytes in
      let fresh = make_buffer-Holds zero_event event_size bytes h in
      let some_room : (b.size == 0) ≡ false = pos→== b.size fresh.room in
      rw some_room (write_loop-Holds es [] b fresh)
