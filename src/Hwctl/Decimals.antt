-- ===== src/Hwctl/Decimals.antt =====
-- What RawSysfsHandler::read (sensors/hwctl/FileHandler.cpp) makes of a decimal number in a sysfs file.
use bosch_mems_android_hal.Common.{
  ℕ, zero, suc, ◌+◌, ◌-◌, ◌*◌, ◌/◌, ◌%◌, ◌^◌, ◌≤◌, ◌<◌, ◌≡◌, refl, sym, ap, ◌∙◌, inl, inr, Bool,
  true, false, [], ◌∷◌, ◌++◌, Bytes, All, ltb, ltb→lt, le→leb, Bool-cases, to_string, decimal_from,
  arith,
}
use native.Mathlib.Nat.{pow-suc}
use bosch_mems_android_hal.Hwctl.Number.{
  is_space, is_digit, is_sign, is_minus, skip, digits_value, signed_value, is_valid_integer, Stoi,
  stoi,
}

IsDigit : ℕ → Type 0
IsDigit c = (48 ≤ c) × (c ≤ 57)

is_digit-of : (c : ℕ) → IsDigit c → is_digit c ≡ true
unfolding IsDigit
is_digit-of c (h, k) = rw (le→leb 48 c h, le→leb c 57 k) refl

is_space-of : (c : ℕ) → IsDigit c → is_space c ≡ false
unfolding IsDigit
is_space-of c (h, k) = ground arith

is_sign-of : (c : ℕ) → IsDigit c → is_sign c ≡ false
unfolding IsDigit
is_sign-of c (h, k) = ground arith

is_minus-of : (c : ℕ) → IsDigit c → is_minus c ≡ false
unfolding IsDigit
is_minus-of c (h, k) = ground arith

AllDigits : Bytes → Type 0
AllDigits s = All IsDigit s

skip-digits : (s : Bytes) (r : Bytes) → AllDigits s → skip is_digit (s ++ r) ≡ skip is_digit r
unfolding AllDigits
skip-digits [] r h = refl
skip-digits (c ∷ s) r (h, hs) = rw (is_digit-of c h) (skip-digits s r hs)

skip-digits_all : (s : Bytes) → AllDigits s → skip is_digit s ≡ []
unfolding AllDigits
skip-digits_all [] h = refl
skip-digits_all (c ∷ s) (h, hs) = rw (is_digit-of c h) (skip-digits_all s hs)

digits_value-append :
    (acc : ℕ) (s r : Bytes)
    → AllDigits s
    → digits_value acc (s ++ r) ≡ digits_value (digits_value acc s) r
unfolding AllDigits
digits_value-append acc [] r h = refl
digits_value-append acc (c ∷ s) r (h, hs) =
    rw (is_digit-of c h) (digits_value-append (acc * 10 + (c - 48)) s r hs)

AllDigits-append : (s r : Bytes) → AllDigits s → AllDigits r → AllDigits (s ++ r)
unfolding AllDigits
AllDigits-append [] r h k = k
AllDigits-append (c ∷ s) r (h, hs) k = (h, AllDigits-append s r hs k)

one_digit : (d : ℕ) → d < 10 → AllDigits ((48 + d) ∷ [])
unfolding AllDigits IsDigit
one_digit d h = ((omega arith, omega arith), tt)

one_digit-value : (acc d : ℕ) → d < 10 → digits_value acc ((48 + d) ∷ []) ≡ acc * 10 + d
unfolding AllDigits
one_digit-value acc d h = rw (is_digit-of (48 + d) (one_digit d h).0) (omega arith)

decimal_from-AllDigits : (fuel n : ℕ) → AllDigits (decimal_from fuel n)
unfolding decimal_from AllDigits
decimal_from-AllDigits zero n = tt
decimal_from-AllDigits (suc fuel) n = elim (Bool-cases (ltb n 10)) [
  | inl e ↦ rw e (one_digit n (ltb→lt n 10 e))
  | inr e ↦ rw e (
      AllDigits-append (decimal_from fuel (n / 10)) _ (decimal_from-AllDigits fuel (n / 10))
        (one_digit (n % 10) (omega arith)))
]

decimal_from-value : (fuel n : ℕ) → n < 10 ^ fuel → digits_value 0 (decimal_from fuel n) ≡ n
unfolding decimal_from
decimal_from-value zero n h = omega arith
decimal_from-value (suc fuel) n h = elim (Bool-cases (ltb n 10)) [
  | inl e ↦ rw e (one_digit-value 0 n (ltb→lt n 10 e) ∙ omega arith)
  | inr e ↦
      let ten : 10 ^ suc fuel ≡ 10 ^ fuel * 10 = pow-suc 10 fuel in
      let ih = decimal_from-value fuel (n / 10) (omega arith) in
      rw e (
        digits_value-append 0 (decimal_from fuel (n / 10)) _ (decimal_from-AllDigits fuel (n / 10))
        ∙ ap (λ k. digits_value k ((48 + n % 10) ∷ [])) ih
        ∙ one_digit-value (n / 10) (n % 10) (omega arith)
        ∙ omega arith)
]

snoc_head :
    (s : Bytes) (d : ℕ)
    → AllDigits (s ++ d ∷ [])
    → (c : ℕ) × (r : Bytes) × (s ++ d ∷ [] ≡ c ∷ r) × AllDigits (c ∷ r)
snoc_head [] d h = (d, [], refl, h)
snoc_head (c ∷ s) d h = (c, s ++ d ∷ [], refl, h)

-- A number has a first digit.
decimal_from-head :
    (fuel n : ℕ) → (c : ℕ) × (r : Bytes) × (decimal_from (suc fuel) n ≡ c ∷ r) × AllDigits (c ∷ r)
unfolding decimal_from
decimal_from-head fuel n = elim (Bool-cases (ltb n 10)) [
  | inl e ↦ rw e (48 + n, [], refl, one_digit n (ltb→lt n 10 e))
  | inr e ↦ rw e (
      snoc_head (decimal_from fuel (n / 10)) (48 + n % 10) (
        AllDigits-append (decimal_from fuel (n / 10)) _ (decimal_from-AllDigits fuel (n / 10))
          (one_digit (n % 10) (omega arith))))
]

-- Digits and the end of the line.
digits_line-valid :
    (c : ℕ) (r : Bytes) → AllDigits (c ∷ r) → is_valid_integer ((c ∷ r) ++ 10 ∷ []) ≡ true
unfolding is_valid_integer AllDigits
digits_line-valid c r (h, hs) =
    rw (is_space-of c h, is_sign-of c h, is_digit-of c h, skip-digits r (10 ∷ []) hs) refl

digits_line-stoi :
    (c : ℕ) (r : Bytes)
    → AllDigits (c ∷ r)
    → stoi ((c ∷ r) ++ 10 ∷ []) ≡ signed_value false (digits_value 0 (c ∷ r))
unfolding stoi AllDigits
digits_line-stoi c r (h, hs) =
    rw
      (
        is_space-of c h,
        is_sign-of c h,
        is_digit-of c h,
        is_minus-of c h,
        digits_value-append (0 + (c - 48)) r (10 ∷ []) hs,
      )
      refl

minus_line-valid :
    (c : ℕ) (r : Bytes) → AllDigits (c ∷ r) → is_valid_integer (45 ∷ (c ∷ r) ++ 10 ∷ []) ≡ true
unfolding is_valid_integer AllDigits
minus_line-valid c r (h, hs) = rw (is_digit-of c h, skip-digits r (10 ∷ []) hs) refl

minus_line-stoi :
    (c : ℕ) (r : Bytes)
    → AllDigits (c ∷ r)
    → stoi (45 ∷ (c ∷ r) ++ 10 ∷ []) ≡ signed_value true (digits_value 0 (c ∷ r))
unfolding stoi AllDigits
minus_line-stoi c r (h, hs) =
    rw (is_digit-of c h, digits_value-append (0 + (c - 48)) r (10 ∷ []) hs) refl

-- How the kernel prints an integer in a sysfs file: decimal, and the end of the line.
unfoldable pub decimal_line : Bool → ℕ → Bytes
decimal_line true n = 45 ∷ to_string n ++ 10 ∷ []
decimal_line false n = to_string n ++ 10 ∷ []

-- Every integer of at most 20 digits, printed in decimal with an end of line, passes the test of a number,
-- and std::stoi reads it back, or is out of range where an int does not hold it.
pub decimal_line-stoi :
    (minus : Bool) (n : ℕ)
    → n < 10 ^ 20
    → (is_valid_integer (decimal_line minus n) ≡ true)
      × (stoi (decimal_line minus n) ≡ signed_value minus n)
unfolding decimal_line to_string
decimal_line-stoi true n h =
    let (c, r, e, ds) = decimal_from-head 19 n in
    let v : digits_value 0 (c ∷ r) ≡ n = sym (ap (digits_value 0) e) ∙ decimal_from-value 20 n h in
    rw e (minus_line-valid c r ds, minus_line-stoi c r ds ∙ ap (signed_value true) v)
decimal_line-stoi false n h =
    let (c, r, e, ds) = decimal_from-head 19 n in
    let v : digits_value 0 (c ∷ r) ≡ n = sym (ap (digits_value 0) e) ∙ decimal_from-value 20 n h in
    rw e (digits_line-valid c r ds, digits_line-stoi c r ds ∙ ap (signed_value false) v)

-- A dot and at least one digit, with no digit before the dot, passes the test of an integer, and
-- std::stoi throws invalid_argument on it.
pub dot_digits-throws :
    (c : ℕ) (r : Bytes)
    → 48 ≤ c
    → c ≤ 57
    → All (λ d. (48 ≤ d) × (d ≤ 57)) r
    → (is_valid_integer (46 ∷ c ∷ r) ≡ true) × (stoi (46 ∷ c ∷ r) ≡ Stoi.invalid_argument)
unfolding is_valid_integer stoi AllDigits IsDigit
dot_digits-throws c r h k hs = (rw (le→leb 48 c h, le→leb c 57 k, skip-digits_all r hs) refl, refl)
