-- ===== src/Prelude/Index.antt =====
-- Reading lists that are cut and joined.
use ad_nope.Prelude.Lists.{length, length-drop, length-append, get_elem?, take, drop}
use Prim.Native.Nat.{ℕ, zero, suc, ◌+◌, ◌-◌, ◌%◌, ◌≤◌, ◌<◌}
use mathlib.Core.List.{List, [], ◌∷◌, ◌++◌}
use mathlib.Core.Option.{some}
use mathlib.Core.Logic.{inl, inr}
use mathlib.Core.Path.{◌≡◌, refl, ap, ◌∙◌}
use native.Mathlib.Omega.{arith}
use ad_nope.Prelude.Tests.{ltb, ltb→lt, ltb-false→le, Bool-cases, if◌then◌else◌}

mod_once : (n k : ℕ) → n ≤ k → k < n + n → k % n ≡ k - n
mod_once n k h l = grind arith

module _ {ℓ} {A : Type ℓ} where
  get_elem?-append :
      (xs ys : List A) (i : ℕ)
      → get_elem? (xs ++ ys) i
        ≡ (if ltb i (length xs) then get_elem? xs i else get_elem? ys (i - length xs))
  get_elem?-append [] ys i = ground arith
  get_elem?-append (x ∷ xs) ys zero = ground arith
  get_elem?-append (x ∷ xs) ys (suc i) = ground (arith, get_elem?-append xs ys i)

  get_elem?-drop : (k : ℕ) (xs : List A) (i : ℕ) → get_elem? (drop k xs) i ≡ get_elem? xs (k + i)
  get_elem?-drop zero xs i = let e : i ≡ 0 + i = omega arith in ap (get_elem? xs) e
  get_elem?-drop (suc k) [] i = refl
  get_elem?-drop (suc k) (x ∷ xs) i =
      let e : suc (k + i) ≡ suc k + i = omega arith in
      get_elem?-drop k xs i ∙ ap (get_elem? (x ∷ xs)) e

  get_elem?-take : (k : ℕ) (xs : List A) (i : ℕ) → i < k → get_elem? (take k xs) i ≡ get_elem? xs i
  get_elem?-take zero xs i h = elim h [ ]
  get_elem?-take (suc k) [] i h = refl
  get_elem?-take (suc k) (x ∷ xs) zero h = refl
  get_elem?-take (suc k) (x ∷ xs) (suc i) h = get_elem?-take k xs i (omega arith)

  -- A list from the place `i` on begins with the element there.
  pub drop-get_elem? :
      (i : ℕ) (xs : List A) (x : A) → get_elem? xs i ≡ some x → drop i xs ≡ x ∷ drop (suc i) xs
  drop-get_elem? i [] x h = cc
  drop-get_elem? zero (y ∷ xs) x h = cc
  drop-get_elem? (suc i) (y ∷ xs) x h = drop-get_elem? i xs x h

  pub drop_all : (i : ℕ) (xs : List A) → length xs ≤ i → drop i xs ≡ []
  drop_all zero [] h = refl
  drop_all zero (x ∷ xs) h = absurd (omega arith)
  drop_all (suc i) [] h = refl
  drop_all (suc i) (x ∷ xs) h = drop_all i xs (omega arith)

  -- The list from `start` on, and then what stands before.
  abbrev pub rotate : ℕ → List A → List A
  rotate start xs = drop start xs ++ take start xs

  length-take : (n : ℕ) (xs : List A) → n ≤ length xs → length (take n xs) ≡ n
  length-take zero xs h = refl
  length-take (suc n) [] h = absurd (omega arith)
  length-take (suc n) (x ∷ xs) h = ap suc (length-take n xs (omega arith))

  pub length-rotate :
      (start : ℕ) (xs : List A) → start ≤ length xs → length (rotate start xs) ≡ length xs
  length-rotate start xs h = omega (
    arith,
    length-append (drop start xs) (take start xs),
    length-drop start xs,
    length-take start xs h,
  )

  pub get_elem?-rotate :
      (start : ℕ) (xs : List A) (i : ℕ)
      → start < length xs
      → i < length xs
      → get_elem? (rotate start xs) i ≡ get_elem? xs ((start + i) % length xs)
  get_elem?-rotate start xs i hs hi = elim (Bool-cases (ltb i (length (drop start xs)))) [
    | inl low ↦
        let p : i < length xs - start = omega (arith, ltb→lt _ _ low, length-drop start xs) in
        let e : start + i ≡ (start + i) % length xs = grind arith in
        get_elem?-append (drop start xs) (take start xs) i
        ∙ rw low (get_elem?-drop start xs i ∙ ap (get_elem? xs) e)
    | inr high ↦
        let p : length xs - start ≤ i =
          omega (arith, ltb-false→le _ _ high, length-drop start xs) in
        let k : i - length (drop start xs) < start = omega (arith, length-drop start xs) in
        let e : i - length (drop start xs) ≡ (start + i) % length xs = omega (
          arith,
          length-drop start xs,
          mod_once (length xs) (start + i) (omega arith) (omega arith),
        ) in
        get_elem?-append (drop start xs) (take start xs) i
        ∙ rw high (get_elem?-take start xs _ k ∙ ap (get_elem? xs) e)
  ]
