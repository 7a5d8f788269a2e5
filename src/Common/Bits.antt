-- ===== src/Common/Bits.antt =====
-- `|` and `&` on numbers whose bits lie in separate fields, by recursion on the number of low bits.
use Prim.Native.Nat.{
  ℕ, zero, suc, ◌+◌, ◌-◌, ◌*◌, ◌/◌, ◌%◌, ◌^◌, ◌≤◌, ◌<◌, min, max, digits, bit_and, bit_or,
  bit_and-bitwise, bit_or-bitwise,
}
use mathlib.Core.Path.{◌≡◌, refl, sym, ◌∙◌}
use native.Mathlib.Nat.{pow-suc}
use native.Mathlib.Omega.{arith}

module _ (rest : ℕ → ℕ) (f : ℕ → ℕ → ℕ) where
  digits-nothing : (n b : ℕ) → digits rest f n 0 b ≡ rest b
  digits-nothing zero b = refl
  digits-nothing (suc n) b = refl

  -- Enough fuel is as good as more.
  digits_enough : (n m a b : ℕ) → a ≤ n → a ≤ m → digits rest f n a b ≡ digits rest f m a b
  digits_enough n m zero b p q = digits-nothing n b ∙ sym (digits-nothing m b)
  digits_enough zero m (suc a) b p q = elim p [ ]
  digits_enough (suc n) zero (suc a) b p q = elim q [ ]
  digits_enough (suc n) (suc m) (suc a) b p q =
      rw (digits_enough n m (suc a / 2) (b / 2) (omega arith) (omega arith))

-- The lowest digit and the others.
and-halves : (a b : ℕ) → bit_and a b ≡ bit_and (a / 2) (b / 2) * 2 + min (a % 2) (b % 2)
and-halves zero b = omega (arith, bit_and-bitwise 0 b, bit_and-bitwise 0 (b / 2))
and-halves (suc a) b = omega (
  arith,
  bit_and-bitwise (suc a) b,
  bit_and-bitwise (suc a / 2) (b / 2),
  digits_enough (λ y. 0) min a (suc a / 2) (suc a / 2) (b / 2) (omega arith) (omega arith),
)

and-half : (a b : ℕ) → bit_and a b / 2 ≡ bit_and (a / 2) (b / 2)
and-half a b = omega (arith, and-halves a b)

or-halves : (a b : ℕ) → bit_or a b ≡ bit_or (a / 2) (b / 2) * 2 + max (a % 2) (b % 2)
or-halves zero b = omega (arith, bit_or-bitwise 0 b, bit_or-bitwise 0 (b / 2))
or-halves (suc a) b = omega (
  arith,
  bit_or-bitwise (suc a) b,
  bit_or-bitwise (suc a / 2) (b / 2),
  digits_enough (λ y. y) max a (suc a / 2) (suc a / 2) (b / 2) (omega arith) (omega arith),
)

zero-or : (b : ℕ) → bit_or 0 b ≡ b
zero-or b = bit_or-bitwise 0 b

zero-and : (b : ℕ) → bit_and 0 b ≡ 0
zero-and b = bit_and-bitwise 0 b

mul-one : (n : ℕ) → n * 2 ^ 0 ≡ n
mul-one n = omega arith

one-field : (n : ℕ) → n * 2 ^ 0 + 0 ≡ n
one-field n = omega arith

shifted_twice : (n k : ℕ) → n * 2 ^ suc k ≡ n * 2 ^ k * 2
shifted_twice n k = rw (pow-suc 2 k) (grind arith)

-- A field above k bits joined to a field of k bits.
pub or-fields : (k low high : ℕ) → low < 2 ^ k → bit_or low (high * 2 ^ k) ≡ high * 2 ^ k + low
or-fields zero zero high h = zero-or (high * 1) ∙ omega arith
or-fields zero (suc low) high h = absurd (omega arith)
or-fields (suc k) low high h =
    let half : high * 2 ^ suc k / 2 ≡ high * 2 ^ k = omega (arith, shifted_twice high k) in
    rw (or-halves low (high * 2 ^ suc k), half)
      (omega (
        arith,
        pow-suc 2 k,
        shifted_twice high k,
        or-fields k (low / 2) high (omega (arith, pow-suc 2 k)),
      ))

and-nothing_fuel : (n a : ℕ) → a ≤ n → bit_and a 0 ≡ 0
and-nothing_fuel n zero h = zero-and 0
and-nothing_fuel zero (suc a) h = absurd (omega arith)
and-nothing_fuel (suc n) (suc a) h =
    omega (arith, and-halves (suc a) 0, and-nothing_fuel n (suc a / 2) (omega arith))

and-nothing : (a : ℕ) → bit_and a 0 ≡ 0
and-nothing a = and-nothing_fuel a a (omega arith)

mod-twice : (a p : ℕ) → 0 < p → a % (p * 2) ≡ a / 2 % p * 2 + a % 2
mod-twice a p h = grind arith

pow_pos : (k : ℕ) → 0 < 2 ^ k
pow_pos zero = omega arith
pow_pos (suc k) = omega (arith, pow-suc 2 k, pow_pos k)

mod_twice_pow : (k a : ℕ) → a % 2 ^ suc k ≡ a / 2 % 2 ^ k * 2 + a % 2
mod_twice_pow k a = rw (pow-suc 2 k) (mod-twice a (2 ^ k) (pow_pos k))

-- A mask of k ones keeps the low k bits.
pub and-mask : (k a : ℕ) → bit_and a (2 ^ k - 1) ≡ a % 2 ^ k
and-mask zero a = omega (arith, and-nothing a)
and-mask (suc k) a =
    let half : (2 ^ suc k - 1) / 2 ≡ 2 ^ k - 1 = omega (arith, pow-suc 2 k) in
    rw (and-halves a (2 ^ suc k - 1), half)
      (omega (arith, pow-suc 2 k, pow_pos k, and-mask k (a / 2), mod_twice_pow k a))

-- A mask of bits above the low k ones.
pub and-fields :
    (k q r n : ℕ) → r < 2 ^ k → bit_and (q * 2 ^ k + r) (n * 2 ^ k) ≡ bit_and q n * 2 ^ k
and-fields zero q zero n h = rw (one-field q, mul-one n, mul-one (bit_and q n)) refl
and-fields zero q (suc r) n h = absurd (omega arith)
and-fields (suc k) q r n h =
    let left : (q * 2 ^ suc k + r) / 2 ≡ q * 2 ^ k + r / 2 = omega (arith, shifted_twice q k) in
    let right : n * 2 ^ suc k / 2 ≡ n * 2 ^ k = omega (arith, shifted_twice n k) in
    rw (and-halves (q * 2 ^ suc k + r) (n * 2 ^ suc k), left, right)
      (omega (
        arith,
        shifted_twice q k,
        shifted_twice n k,
        shifted_twice (bit_and q n) k,
        and-fields k q (r / 2) n (omega (arith, pow-suc 2 k)),
      ))

-- Bits that a mask has cleared.
pub and-cleared : (k m a : ℕ) → m < 2 ^ k → bit_and (bit_and a (2 ^ k - 1 - m)) m ≡ 0
and-cleared zero zero a h = and-nothing _
and-cleared zero (suc m) a h = absurd (omega arith)
and-cleared (suc k) m a h =
    let half : (2 ^ suc k - 1 - m) / 2 ≡ 2 ^ k - 1 - m / 2 = omega (arith, pow-suc 2 k) in
    rw (and-halves (bit_and a (2 ^ suc k - 1 - m)) m, and-half a (2 ^ suc k - 1 - m), half)
      (omega (
        arith,
        pow-suc 2 k,
        and-halves a (2 ^ suc k - 1 - m),
        and-cleared k (m / 2) (a / 2) (omega (arith, pow-suc 2 k)),
      ))
