-- ===== src/Base/Decimal.antt =====
-- fmt's `%d` for an `int` that is not negative.
use Prim.Native.Nat.{ℕ, zero, suc, ◌+◌, ◌/◌, ◌%◌}
use mathlib.Core.Path.{◌≡◌, refl}
use mathlib.Core.List.{[], ◌∷◌, ◌++◌}
use minidist.Base.Tests.{ltb, if◌then◌else◌}
use minidist.Base.Text.{Text, codes}

-- One digit for each unit of fuel; a number has at most as many digits as its value plus one.
digits_of : ℕ → ℕ → Text
digits_of zero n = []
digits_of (suc fuel) n =
    let rest = digits_of fuel (n / 10) in
    if ltb n 10 then (48 + n) ∷ [] else rest ++ (48 + n % 10) ∷ []

unfoldable pub decimal : ℕ → Text
unfolding digits_of
decimal n = digits_of (suc n) n

decimal_test : decimal 1070 ≡ codes "1070"
unfolding decimal
decimal_test = refl
