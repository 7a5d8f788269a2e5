-- ===== src/Common/Decimal.antt =====
-- `std::to_string` of a number that is not negative.
use Prim.Native.Nat.{ℕ, zero, suc, ◌+◌, ◌/◌, ◌%◌}
use mathlib.Core.List.{[], ◌∷◌, ◌++◌}
use bosch_mems_android_hal.Common.Tests.{ltb, if◌then◌else◌}
use bosch_mems_android_hal.Common.Text.{Bytes}

-- At most `fuel` digits.
unfoldable pub decimal_from : ℕ → ℕ → Bytes
decimal_from zero n = []
decimal_from (suc fuel) n =
    let rest = decimal_from fuel (n / 10) in
    if ltb n 10 then (48 + n) ∷ [] else rest ++ (48 + n % 10) ∷ []

-- A 64-bit number has at most 20 digits.
unfoldable pub to_string : ℕ → Bytes
unfolding decimal_from
to_string n = decimal_from 20 n
