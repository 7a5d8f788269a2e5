-- ===== src/Hwctl/Number.antt =====
-- RawSysfsHandler::isValidInteger of sensors/hwctl/FileHandler.cpp and the language's `std::stoi`.
use bosch_mems_android_hal.Common.{
  ℕ, ◌+◌, ◌-◌, ◌*◌, ◌^◌, Bool, true, false, ◌&&◌, ◌||◌, [], ◌∷◌, Bytes, ltb, leb, ◌==◌,
  if◌then◌else◌, ℤ, pos, neg,
}

-- `\s`, and what `std::stoi` skips.
abbrev pub is_space : ℕ → Bool
is_space c = c == 32 || leb 9 c && leb c 13

-- `\d`.
abbrev pub is_digit : ℕ → Bool
is_digit c = leb b'0' c && leb c b'9'

abbrev pub is_sign : ℕ → Bool
is_sign c = c == b'-' || c == b'+'

abbrev pub is_exponent : ℕ → Bool
is_exponent c = c == b'e' || c == b'E'

-- What is left behind the leading bytes of a class.
abbrev pub skip : (ℕ → Bool) → Bytes → Bytes
skip p [] = []
skip p (c ∷ s) = if p c then skip p s else c ∷ s

-- `[-+]?`.
abbrev pub skip_one : (ℕ → Bool) → Bytes → Bytes
skip_one p [] = []
skip_one p (c ∷ s) = if p c then s else c ∷ s

abbrev pub starts : (ℕ → Bool) → Bytes → Bool
starts p [] = false
starts p (c ∷ s) = p c

-- `\s*$`.
abbrev pub blank : Bytes → Bool
blank s = elim (skip is_space s) [ [] ↦ true | c ∷ r ↦ false ]

-- `(?:[eE][-+]?\d+)?\s*$`.
abbrev pub exponent_tail : Bytes → Bool
exponent_tail s =
    if starts is_exponent s
    then (let e = skip_one is_sign (skip_one is_exponent s) in
        starts is_digit e && blank (skip is_digit e))
    else blank s

abbrev pub is_dot : ℕ → Bool
is_dot c = c == b'.'

-- `(?:\d+(?:\.\d*)?|\.\d+)` and the rest of the pattern.
abbrev pub number_tail : Bytes → Bool
number_tail s =
    if starts is_digit s
    then exponent_tail (
        let r = skip is_digit s in if starts is_dot r then skip is_digit (skip_one is_dot r) else r)
    else if starts is_dot s
    then (let r = skip_one is_dot s in starts is_digit r && exponent_tail (skip is_digit r))
    else false

unfoldable pub is_valid_integer : Bytes → Bool
is_valid_integer s = number_tail (skip_one is_sign (skip is_space s))

-- What std::stoi does: a value, std::invalid_argument, or std::out_of_range.
pub data Stoi : Type 0 where
  value : ℤ → Stoi
  invalid_argument out_of_range : Stoi

-- The value of the leading digits, on top of those already read.
abbrev pub digits_value : ℕ → Bytes → ℕ
digits_value acc [] = acc
digits_value acc (c ∷ s) = if is_digit c then digits_value (acc * 10 + (c - b'0')) s else acc

-- An `int` has 32 bits.
abbrev pub signed_value : Bool → ℕ → Stoi
signed_value true n = if leb n (2 ^ 31) then value (neg n) else out_of_range
signed_value false n = if ltb n (2 ^ 31) then value (pos n) else out_of_range

abbrev pub is_minus : ℕ → Bool
is_minus c = c == b'-'

unfoldable pub stoi : Bytes → Stoi
stoi s =
    let t = skip is_space s in
    let d = skip_one is_sign t in
    if starts is_digit d
    then signed_value (starts is_minus t) (digits_value 0 d)
    else invalid_argument
