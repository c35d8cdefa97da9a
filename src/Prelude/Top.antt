-- ===== src/Prelude/Top.antt =====
-- The first elements of a sorted list: what `sort` and then `take` select.
use Prim.Native.Nat.{ℕ, zero, suc, min, ◌≤◌}
use mathlib.Core.Path.{◌≡◌, refl, ap, ◌∙◌}
use mathlib.Core.Bool.{Bool, true}
use mathlib.Core.List.{List, [], ◌∷◌, ◌++◌, Perm, Permᴰ}
use mathlib.Core.Logic.{∥∥₁_elim}
use native.Mathlib.Nat.{ℕ_set}
use native.Mathlib.Omega.{arith}
use ad_nope.Prelude.Lists.{All, take, drop, length}
use ad_nope.Prelude.Sort.{IsSorted}

module _ {ℓ} {A : Type ℓ} where
  module _ {κ} (P : A → Type κ) where
    pub All-take : (n : ℕ) (xs : List A) → All P xs → All P (take n xs)
    All-take zero xs h = tt
    All-take (suc n) [] h = tt
    All-take (suc n) (x ∷ xs) h = (h.0, All-take n xs h.1)

    pub All-drop : (n : ℕ) (xs : List A) → All P xs → All P (drop n xs)
    All-drop zero xs h = h
    All-drop (suc n) [] h = tt
    All-drop (suc n) (x ∷ xs) h = All-drop n xs h.1

  pub take-append-drop : (n : ℕ) (xs : List A) → take n xs ++ drop n xs ≡ xs
  take-append-drop zero xs = refl
  take-append-drop (suc n) [] = refl
  take-append-drop (suc n) (x ∷ xs) = ap (λ ys. x ∷ ys) (take-append-drop n xs)

  pub length-take : (n : ℕ) (xs : List A) → length (take n xs) ≡ min n (length xs)
  length-take zero xs = omega arith
  length-take (suc n) [] = omega arith
  length-take (suc n) (x ∷ xs) = omega (arith, length-take n xs)

  take_all : (n : ℕ) (xs : List A) → length xs ≤ n → take n xs ≡ xs
  take_all zero [] h = refl
  take_all zero (x ∷ xs) h = absurd (omega arith)
  take_all (suc n) [] h = refl
  take_all (suc n) (x ∷ xs) h = ap (λ ys. x ∷ ys) (take_all n xs (omega arith))

  module _ (le : A → A → Bool) where
    pub take-IsSorted : (n : ℕ) (xs : List A) → IsSorted le xs → IsSorted le (take n xs)
    take-IsSorted zero xs h = tt
    take-IsSorted (suc n) [] h = tt
    take-IsSorted (suc n) (x ∷ xs) h = (All-take _ n xs h.0, take-IsSorted n xs h.1)

    pub take-first :
        (n : ℕ) (xs : List A)
        → IsSorted le xs
        → All (λ x. All (λ y. le x y ≡ true) (drop n xs)) (take n xs)
    take-first zero xs h = tt
    take-first (suc n) [] h = tt
    take-first (suc n) (x ∷ xs) h = (All-drop _ n xs h.0, take-first n xs h.1)

    -- The list `l` holds the first of `items`: those and `rest` are the items, in order, and none of
    -- `rest` comes before one of `l`.
    pub record IsFirst (items l rest : List A) : Type ℓ where
      pub parts : Perm (l ++ rest) items
      pub sorted : IsSorted le l
      pub first : All (λ x. All (λ y. le x y ≡ true) rest) l

  length-perm_d : {xs ys : List A} → Permᴰ xs ys → length xs ≡ length ys
  length-perm_d Permᴰ.nil = refl
  length-perm_d (Permᴰ.cons e p) = ap suc (length-perm_d p)
  length-perm_d (Permᴰ.swap e f) = refl
  length-perm_d (Permᴰ.trans p q) = length-perm_d p ∙ length-perm_d q

  pub length-perm : {xs ys : List A} → Perm xs ys → length xs ≡ length ys
  length-perm {xs} {ys} p = ∥∥₁_elim p (ℕ_set (length xs) (length ys)) length-perm_d
