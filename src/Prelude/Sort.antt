-- ===== src/Prelude/Sort.antt =====
-- `slice::sort_by`: a stable sort, by a comparison read as "not greater".
use mathlib.Core.List.{Nodup, Perm, Permᴰ, Nodup-cons, mem-cons_self, map, List, [], ◌∷◌}
use mathlib.Core.List.Perm
use mathlib.Core.Logic.{∥∥₁_elim, inl, inr}
use ad_nope.Prelude.Tests.{if◌then◌else◌, Bool-cases}
use mathlib.Core.Path.{◌≡◌, refl, ◌∙◌}
use mathlib.Core.Bool.{Bool, true, false}
use native.Mathlib.Omega.{arith}
use ad_nope.Prelude.Lists.{All}

module _ {ℓ} {A : Type ℓ} (le : A → A → Bool) where
  unfoldable pub place : A → List A → List A
  place x [] = x ∷ []
  place x (y ∷ ys) = if le x y then x ∷ y ∷ ys else y ∷ place x ys

  unfoldable pub sort : List A → List A
  unfolding place
  sort [] = []
  sort (x ∷ xs) = place x (sort xs)

  abbrev pub IsSorted : List A → Type ℓ
  IsSorted [] = Unit
  IsSorted (x ∷ xs) = All (λ y. le x y ≡ true) xs × IsSorted xs

  place-perm : (x : A) (xs : List A) → Perm (place x xs) (x ∷ xs)
  unfolding place
  place-perm x [] = Perm.refl (x ∷ [])
  place-perm x (y ∷ ys) = elim (Bool-cases (le x y)) [
    | inl e ↦ rw e (Perm.refl (x ∷ y ∷ ys))
    | inr e ↦ rw e (Perm.trans (Perm.cons y (place-perm x ys)) (Perm.swap x y ys))
  ]

  pub sort-perm : (xs : List A) → Perm (sort xs) xs
  unfolding sort
  sort-perm [] = Perm.refl []
  sort-perm (x ∷ xs) = Perm.trans (place-perm x (sort xs)) (Perm.cons x (sort-perm xs))

  module _ (total : (x y : A) → le x y ≡ false → le y x ≡ true)
      (trans : (x y z : A) → le x y ≡ true → le y z ≡ true → le x z ≡ true) where
    place-All :
        {z : A} (x : A) (xs : List A)
        → le z x ≡ true
        → All (λ y. le z y ≡ true) xs
        → All (λ y. le z y ≡ true) (place x xs)
    unfolding place
    place-All x [] h hs = (h, tt)
    place-All x (y ∷ ys) h hs = elim (Bool-cases (le x y)) [
      | inl e ↦ rw e (h, hs)
      | inr e ↦ rw e (hs.0, place-All x ys h hs.1)
    ]

    below-All :
        {x y : A} (ys : List A)
        → le x y ≡ true
        → All (λ z. le y z ≡ true) ys
        → All (λ z. le x z ≡ true) ys
    below-All [] h hs = tt
    below-All {x} {y} (z ∷ ys) h hs = (trans x y z h hs.0, below-All ys h hs.1)

    place-IsSorted : (x : A) (xs : List A) → IsSorted xs → IsSorted (place x xs)
    unfolding place
    place-IsSorted x [] s = (tt, tt)
    place-IsSorted x (y ∷ ys) s = elim (Bool-cases (le x y)) [
      | inl e ↦ rw e ((e, below-All ys e s.0), s)
      | inr e ↦ rw e (place-All x ys (total x y e) s.0, place-IsSorted x ys s.1)
    ]

    pub sort-IsSorted : (xs : List A) → IsSorted (sort xs)
    unfolding sort
    sort-IsSorted [] = tt
    sort-IsSorted (x ∷ xs) = place-IsSorted x (sort xs) (sort-IsSorted xs)

    -- Two elements that the comparison tells apart may be placed in either order.
    place_comm :
        (x y : A)
        → (le x y ≡ true → le y x ≡ true → x ≡ y)
        → (zs : List A) → place x (place y zs) ≡ place y (place x zs)
    unfolding place
    place_comm x y anti [] = ground (arith, total x y, anti)
    place_comm x y anti (z ∷ zs) =
        ground (arith, total x y, anti, trans x y z, trans y x z, place_comm x y anti zs)

    -- So the order of the input does not matter, where a key (a function that the comparison
    -- reads) tells the elements apart.
    sort-eq_of_perm_d {κ} :
        {K : Type κ} (key : A → K)
        → ((x y : A) → le x y ≡ true → le y x ≡ true → key x ≡ key y)
        → {xs ys : List A} → Nodup (map key xs)
        → Permᴰ xs ys
        → sort xs ≡ sort ys
    unfolding sort
    sort-eq_of_perm_d key anti d Permᴰ.nil = refl
    sort-eq_of_perm_d key anti d (Permᴰ.cons e p) =
        cc (e, sort-eq_of_perm_d key anti (Nodup-cons.0 d).1 p)
    sort-eq_of_perm_d key anti d (Permᴰ.swap {a} {b} {l = l} e f) =
        place_comm a b (λ h k. absurd ((Nodup-cons.0 d).0 (rw (anti a b h k) mem-cons_self)))
          (sort l)
        ∙ cc (e, f)
    sort-eq_of_perm_d key anti d (Permᴰ.trans p q) =
        sort-eq_of_perm_d key anti d p
        ∙ sort-eq_of_perm_d key anti (Perm.nodup (Perm.map key ∣ p ∣₁) d) q

    pub sort-eq_of_perm {κ} :
        {K : Type κ} (key : A → K)
        → IsSet A
        → ((x y : A) → le x y ≡ true → le y x ≡ true → key x ≡ key y)
        → {xs ys : List A} → Nodup (map key xs)
        → Perm xs ys
        → sort xs ≡ sort ys
    sort-eq_of_perm key set anti d p =
        let lists : IsSet (List A) = hlevel set in
        ∥∥₁_elim p (lists _ _) (λ q. sort-eq_of_perm_d key anti d q)
