-- ===== src/Aidl/Float32.antt =====
-- The arithmetic of `currentTime + period * POLL_TIME_REDUCTION_FACTOR` in Sensor::run of
-- sensors/aidl/Sensor.cpp: the factor is the float 1.0f of sensors/core/ISensorHal.h, so both numbers are
-- converted to float, whose significand has 24 bits, and the sum is a float before it is stored as int64_t.
use native.Mathlib.Nat.{pow-suc}
use bosch_mems_android_hal.Common.{
  ℕ, zero, suc, ◌+◌, ◌*◌, ◌/◌, ◌%◌, ◌^◌, ◌≤◌, ◌<◌, ◌≡◌, refl, ap, ◌∙◌, ltb, lt→ltb, ◌==◌,
  if◌then◌else◌, arith,
}

-- How often a number is halved until it fits the significand.
excess : ℕ → ℕ → ℕ
excess zero n = 0
excess (suc fuel) n = let rest = excess fuel (n / 2) in if ltb n (2 ^ 24) then 0 else suc rest

-- To the nearest multiple of the unit, and from the middle to an even one.
round_half_even : ℕ → ℕ → ℕ
round_half_even n unit =
    let q = n / unit in
    let r = 2 * (n % unit) in
    (if ltb r unit then q else if ltb unit r then q + 1 else if q % 2 == 0 then q else q + 1) * unit

-- A number below 2 ^ 63 is below 2 ^ 24 after 40 halvings.
pub to_float : ℕ → ℕ
to_float n = round_half_even n (2 ^ excess 40 n)

unfoldable pub deadline : ℕ → ℕ → ℕ
unfolding to_float excess round_half_even
deadline now period = to_float (to_float now + to_float period)

div_of : (q r unit : ℕ) → r < unit → (q * unit + r) / unit ≡ q
div_of q r unit h = grind arith

mod_of : (q r unit : ℕ) → r < unit → (q * unit + r) % unit ≡ r
mod_of q r unit h = grind arith

round_half_even-below :
    (q r unit : ℕ) → 2 * r < unit → round_half_even (q * unit + r) unit ≡ q * unit
unfolding round_half_even
round_half_even-below q r unit h =
    rw (div_of q r unit (omega arith), mod_of q r unit (omega arith), lt→ltb (2 * r) unit h)

excess-exact : (e f n : ℕ) → e ≤ f → 8388608 * 2 ^ e ≤ n → n < 16777216 * 2 ^ e → excess f n ≡ e
unfolding excess
excess-exact zero zero n h l u = refl
excess-exact zero (suc f) n h l u = ground arith
excess-exact (suc e) zero n h l u = elim h [ ]
excess-exact (suc e) (suc f) n h l u =
    let twice : 2 ^ suc e ≡ 2 ^ e * 2 = pow-suc 2 e in
    ground (arith, twice, excess-exact e f (n / 2) (omega arith) (omega arith) (omega arith))

add-zero' : (n : ℕ) → n ≡ n + 0
add-zero' n = omega arith

excess-small : (f n : ℕ) → n < 16777216 → excess f n ≡ 0
unfolding excess
excess-small zero n h = refl
excess-small (suc f) n h = rw (lt→ltb n 16777216 h)

round_half_even-one : (n : ℕ) → round_half_even n 1 ≡ n
unfolding round_half_even
round_half_even-one n = ground arith

scale_ge : (q u r c : ℕ) → c ≤ q → c * u ≤ q * u + r
scale_ge q u r c h = grind arith

scale_lt : (q u r c : ℕ) → q < c → r < u → q * u + r < c * u
scale_lt q u r c h k = grind arith

to_float-small : (n : ℕ) → n < 16777216 → to_float n ≡ n
unfolding to_float
to_float-small n h = rw (excess-small 40 n h) (round_half_even-one n)

-- A number of which the float keeps only the multiple of 2 ^ e.
to_float-below :
    (q e r : ℕ)
    → 8388608 ≤ q
    → q < 16777216
    → e ≤ 40
    → 2 * r < 2 ^ e
    → to_float (q * 2 ^ e + r) ≡ q * 2 ^ e
unfolding to_float
to_float-below q e r l u h small =
    let exact : excess 40 (q * 2 ^ e + r) ≡ e =
      excess-exact e 40 (q * 2 ^ e + r) h (scale_ge q (2 ^ e) r 8388608 l)
        (scale_lt q (2 ^ e) r 16777216 u (omega arith)) in
    rw exact (round_half_even-below q r (2 ^ e) small)

-- The clock is a 24-bit number of units of 2 ^ e nanoseconds, and the period is less than 2 ^ 24 and less than half a
-- unit: then the deadline is the present.
pub deadline-now :
    (q e period : ℕ)
    → 8388608 ≤ q
    → q < 16777216
    → e ≤ 40
    → period < 16777216
    → 2 * period < 2 ^ e
    → deadline (q * 2 ^ e) period ≡ q * 2 ^ e
unfolding deadline
deadline-now q e period l u h short small =
    let clock : to_float (q * 2 ^ e) ≡ q * 2 ^ e =
      ap to_float (add-zero' (q * 2 ^ e)) ∙ to_float-below q e 0 l u h (omega arith) in
    rw (clock, to_float-small period short) (to_float-below q e period l u h small)
