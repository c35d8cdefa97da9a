-- ===== src/Prelude/Case.antt =====
-- `make_ascii_lowercase`: the letters A to Z become a to z, every other character stays.
use Prim.Native.Char.{Char, char, code, IsScalar}
use Prim.Native.Nat.{ℕ, ◌+◌, ◌<◌, compare, Ordering}
use Prim.Native.String.{String, [], ◌∷◌}
use mathlib.Core.Bool.{Bool, false, ◌&&◌}
use mathlib.Core.Logic.{dite}
use mathlib.Core.Path.{◌≡◌, refl, ap₂}
use native.Mathlib.Decide.{dec_le}
use native.Mathlib.Omega.{arith}
use text.Mathlib.TextEquality.{Char-path}
use ad_nope.Prelude.Tests.{leb, if◌then◌else◌}

compare-lt : (n : ℕ) → n < 55296 → compare n 55296 ≡ Ordering.lt
compare-lt n h = ground arith

pub IsScalar-of_lt : (n : ℕ) → n < 55296 → IsScalar n
IsScalar-of_lt n h = rw (compare-lt n h) tt

unfoldable pub is_ascii_uppercase : ℕ → Bool
is_ascii_uppercase c = leb 65 c && leb c 90

unfoldable pub to_ascii_lowercase : Char → Char
unfolding dec_le
to_ascii_lowercase c =
    dite (dec_le 65 (code c))
      (λ low.
        dite (dec_le (code c) 90)
          (λ high. char (code c + 32) (IsScalar-of_lt (code c + 32) (omega arith))) (λ _. c))
      (λ _. c)

unfoldable pub make_ascii_lowercase : String → String
unfolding to_ascii_lowercase
make_ascii_lowercase [] = []
make_ascii_lowercase (c ∷ s) = to_ascii_lowercase c ∷ make_ascii_lowercase s

-- No letter of the text is an ASCII capital.
abbrev pub IsLowercase : String → Type 0
IsLowercase [] = Unit
IsLowercase (c ∷ s) = (is_ascii_uppercase (code c) ≡ false) × IsLowercase s

code-to_ascii_lowercase :
    (c : Char)
    → code (to_ascii_lowercase c) ≡ (if is_ascii_uppercase (code c) then code c + 32 else code c)
unfolding to_ascii_lowercase is_ascii_uppercase
code-to_ascii_lowercase c = grind arith

make_ascii_lowercase-IsLowercase : (s : String) → IsLowercase (make_ascii_lowercase s)
unfolding make_ascii_lowercase is_ascii_uppercase
make_ascii_lowercase-IsLowercase [] = tt
make_ascii_lowercase-IsLowercase (c ∷ s) =
    (ground (arith, code-to_ascii_lowercase c), make_ascii_lowercase-IsLowercase s)

make_ascii_lowercase_fixed : (s : String) → IsLowercase s → make_ascii_lowercase s ≡ s
unfolding make_ascii_lowercase
make_ascii_lowercase_fixed [] h = refl
make_ascii_lowercase_fixed (c ∷ s) h =
    ap₂ (λ x y. x ∷ y) (Char-path _ _ (ground (arith, code-to_ascii_lowercase c)))
      (make_ascii_lowercase_fixed s h.1)
