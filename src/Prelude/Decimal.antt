-- ===== src/Prelude/Decimal.antt =====
-- `Display` of a `u64`: its decimal digits, of which there are at most 20.
use Prim.Native.Nat.{ℕ, zero, suc, ◌+◌, ◌/◌, ◌%◌}
use Prim.Native.Char.{Char, char}
use Prim.Native.String.{String, [], ◌∷◌, ◌++◌}
use native.Mathlib.Omega.{arith}
use ad_nope.Prelude.Tests.{ltb, if◌then◌else◌}
use ad_nope.Prelude.Case.{IsScalar-of_lt}

abbrev pub digit : ℕ → Char
digit n = char (n % 10 + 48) (IsScalar-of_lt (n % 10 + 48) (omega arith))

-- The last `rounds` digits, without leading zeros.
unfoldable pub digits : ℕ → ℕ → String
digits zero n = []
digits (suc rounds) n =
    let front = digits rounds (n / 10) in if ltb n 10 then digit n ∷ [] else front ++ (digit n ∷ [])

unfoldable pub to_string : ℕ → String
unfolding digits
to_string n = digits 20 n
