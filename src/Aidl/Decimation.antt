-- ===== src/Aidl/Decimation.antt =====
-- Which events of a sensor a direct channel receives (writeToDirectBuffer of sensors/aidl).
use bosch_mems_android_hal.Common.{
  ℕ, ◌+◌, ◌-◌, ◌*◌, ◌/◌, ◌^◌, ◌||◌, leb, ◌≤◌, ◌<◌, ◌≡◌, refl, sym, subst, ◌∙◌, inl, inr, true,
  false, List, [], ◌∷◌, Option, none, some, All, lookup_or, insert, lookup_or-insert, any_of, ltb,
  ◌==◌, ==_self, lt→ltb, le→ltb, ltb→lt, ltb→le, Bool-cases, if◌then◌else◌, arith,
}
use bosch_mems_android_hal.Core.DirectChannel.{DirectChannel, LockfreeBuffer, write, write_event}
use bosch_mems_android_hal.Aidl.Types.{Interface, Event}
use bosch_mems_android_hal.Aidl.Placement.{◌>>=◌}
use bosch_mems_android_hal.Aidl.DirectBuffer.{SensorsEvent, to_sensors_event, deliver}

-- How many samples of the sensor make one of the channel: rate / period, rounded up.
unfoldable pub stride : ℕ → ℕ → ℕ
stride period rate = (rate + (period - 1)) / period

below : (p r m : ℕ) → 0 < p → m < (r + (p - 1)) / p → p * m < r
below p r m h k = grind arith

above : (p r m : ℕ) → 0 < p → (r + (p - 1)) / p ≤ m → r ≤ p * m
above p r m h k = grind arith

-- The test of the code against the number of samples.
stride-test : (period rate n : ℕ) → 0 < period → ltb (period * n) rate ≡ ltb n (stride period rate)
unfolding stride
stride-test p r n h = elim (Bool-cases (ltb n ((r + (p - 1)) / p))) [
  | inl e ↦ lt→ltb (p * n) r (below p r n h (ltb→lt n _ e)) ∙ sym e
  | inr e ↦ le→ltb (p * n) r (above p r n h (ltb→le n _ e)) ∙ sym e
]

-- A count and a product of it that fit their types.
in_range :
    (n product : ℕ)
    → n < 2 ^ 31
    → product < 2 ^ 63
    → (leb (2 ^ 31) n || leb (2 ^ 63) product) ≡ false
in_range n product h k = ground arith

next_product : (p n : ℕ) → p * (n + 1) ≡ p * n + p
next_product p n = grind arith

module _ {F : Type 0} (api : Interface) where
  -- Every k-th event, where n of the next k have passed already.
  unfoldable pub every : ℕ → ℕ → List (Event F) → List (Event F)
  every k n [] = []
  every k n (e ∷ es) = if ltb (n + 1) k then every k (n + 1) es else e ∷ every k 0 es

  -- The events in their order, written one by one.
  unfoldable pub write_events :
      List (Event F) → LockfreeBuffer (SensorsEvent F) → LockfreeBuffer (SensorsEvent F)
  write_events [] b = b
  write_events (e ∷ es) b =
      write_events es (elim (to_sensors_event api e) [ none ↦ b | some ev ↦ write (ev ∷ []) b ])

  unfoldable pub deliver_all :
      ℕ → List (Event F) → DirectChannel (SensorsEvent F) → Option (DirectChannel (SensorsEvent F))
  deliver_all period [] c = some c
  deliver_all period (e ∷ es) c = do c' ← deliver api period e c; deliver_all period es c'

  -- Events of the sensor with handle `h` that are converted without a failure.
  unfoldable pub IsFrom : ℕ → Event F → Type 0
  IsFrom h e = (e.sensor_handle ≡ h) × ((v : SensorsEvent F) × (to_sensors_event api e ≡ some v))

  -- The channel is configured for the sensor at a rate, has a buffer, and n samples have passed.
  pub record IsReady (h rate n : ℕ) (b : LockfreeBuffer (SensorsEvent F))
      (c : DirectChannel (SensorsEvent F)) : Type 0 where
    pub listed : any_of (λ s. s == h) c.sensor_handles ≡ true
    pub rated : lookup_or 0 h c.rate_ns ≡ rate
    pub passed : lookup_or 0 h c.sample_count ≡ n
    pub buffered : c.buffer ≡ some b

  IsConverted : Event F → Type 0
  IsConverted e = (v : SensorsEvent F) × (to_sensors_event api e ≡ some v)

  -- One event, with the count not at the rate yet.
  deliver-skips :
      (period rate n : ℕ) (e : Event F) (b : LockfreeBuffer (SensorsEvent F))
      (c : DirectChannel (SensorsEvent F))
      → 0 < rate
      → IsReady e.sensor_handle rate n b c
      → n + 1 < 2 ^ 31
      → period * (n + 1) < 2 ^ 63
      → ltb (period * (n + 1)) rate ≡ true
      → (c' : DirectChannel (SensorsEvent F)) × (deliver api period e c ≡ some c')
        × IsReady e.sensor_handle rate (n + 1) b c'
  unfolding deliver
  deliver-skips period rate n e b c pos ready count product few =
      let h = e.sensor_handle in
      let nonzero : (rate == 0) ≡ false = ground arith in
      rw
        (
          ready.listed,
          ready.rated,
          ready.passed,
          nonzero,
          in_range (n + 1) (period * (n + 1)) count product,
          few,
        )
        (
          _,
          refl,
          record {
            listed = ready.listed;
            rated = lookup_or-insert 0 h h rate c.rate_ns ∙ rw (==_self h) refl;
            passed = lookup_or-insert 0 h h (n + 1) c.sample_count ∙ rw (==_self h) refl;
            buffered = ready.buffered;
          },
        )

  -- One event, with the count at the rate.
  deliver-writes :
      (period rate n : ℕ) (e : Event F) (b : LockfreeBuffer (SensorsEvent F))
      (c : DirectChannel (SensorsEvent F))
      → 0 < rate
      → IsReady e.sensor_handle rate n b c
      → IsConverted e
      → n + 1 < 2 ^ 31
      → period * (n + 1) < 2 ^ 63
      → ltb (period * (n + 1)) rate ≡ false
      → (c' : DirectChannel (SensorsEvent F)) × (deliver api period e c ≡ some c')
        × IsReady e.sensor_handle rate 0 (write_events (e ∷ []) b) c'
  unfolding deliver IsConverted write_events write_event
  deliver-writes period rate n e b c pos ready (v, conv) count product enough =
      let h = e.sensor_handle in
      let nonzero : (rate == 0) ≡ false = ground arith in
      rw
        (
          ready.listed,
          ready.rated,
          ready.passed,
          nonzero,
          in_range (n + 1) (period * (n + 1)) count product,
          enough,
          conv,
        )
        (
          _,
          refl,
          record {
            listed = ready.listed;
            rated = lookup_or-insert 0 h h rate c.rate_ns ∙ rw (==_self h) refl;
            passed =
                lookup_or-insert 0 h h 0 (insert h (n + 1) c.sample_count) ∙ rw (==_self h) refl;
            buffered = rw ready.buffered (rw (write_events, conv) refl);
          },
        )

  -- A channel that is configured for a sensor at a rate that is not 0 and has a buffer, when n of its samples have
  -- passed since the last write: of any further events of that sensor, whose payloads all have the kind that their type
  -- asks for, and which come at a period that is not 0, the channel writes every k-th, counted on from n,
  -- where k is the rate divided by the period, rounded up; nothing else changes its buffer. It is assumed that
  -- n + 1 and k are below 2 ^ 31, and the period times n + 1 and the rate plus the period below 2 ^ 63.
  pub deliver_all-every :
      (h period rate n : ℕ) (es : List (Event F)) (b : LockfreeBuffer (SensorsEvent F))
      (c : DirectChannel (SensorsEvent F))
      → 0 < period
      → 0 < rate
      → n + 1 < 2 ^ 31
      → period * (n + 1) < 2 ^ 63
      → stride period rate < 2 ^ 31
      → rate + period < 2 ^ 63
      → IsReady h rate n b c
      → All (IsFrom h) es
      → (c' : DirectChannel (SensorsEvent F)) × (deliver_all period es c ≡ some c')
        × (c'.buffer ≡ some (write_events (every (stride period rate) n es) b))
  unfolding deliver_all every IsFrom IsConverted write_events
  deliver_all-every h period rate n [] b c p r count product few_in sum ready from =
      (c, refl, ready.buffered)
  deliver_all-every h period rate n (e ∷ es) b c p r count product few_in sum ready
        ((handle, conv), from) =
      elim (Bool-cases (ltb (n + 1) (stride period rate))) [
        | inl few ↦
            let few' = stride-test period rate (n + 1) p ∙ few in
            let (c', step, ready') =
              deliver-skips period rate n e b c r
                (subst (λ k. IsReady k rate n b c) (sym handle) ready) count product few' in
            let more = ltb→lt (n + 1) (stride period rate) few in
            let short = ltb→lt (period * (n + 1)) rate few' in
            let next = next_product period (n + 1) in
            let (c2, rest, ok) =
              deliver_all-every h period rate (n + 1) es b c' p r (omega (arith, more, few_in))
                (omega (arith, next, short, sum)) few_in sum
                (subst (λ k. IsReady k rate (n + 1) b c') handle ready') from in
            (c2, rw step rest, rw few ok)
        | inr enough ↦
            let enough' = stride-test period rate (n + 1) p ∙ enough in
            let (c', step, ready') =
              deliver-writes period rate n e b c r
                (subst (λ k. IsReady k rate n b c) (sym handle) ready) conv count product enough' in
            let b' = write_events (e ∷ []) b in
            let (c2, rest, ok) =
              deliver_all-every h period rate 0 es b' c' p r (omega arith) (omega (arith, sum))
                few_in sum (subst (λ k. IsReady k rate 0 b' c') handle ready') from in
            (c2, rw step rest, rw enough ok)
      ]
