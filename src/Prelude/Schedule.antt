-- ===== src/Prelude/Schedule.antt =====
-- Concurrent tasks that complete in some order. A schedule is a list of numbers, each of which
-- chooses one of the tasks that are left; any order arises from one.
use Prim.Native.Nat.{ℕ, zero, suc}
use mathlib.Core.List.{List, [], ◌∷◌, Perm}
use mathlib.Core.List.Perm
use ad_nope.Prelude.Lists.{Elem, here, there}

module _ {ℓ} {A : Type ℓ} where
  -- The chosen one of `x` and `xs`, and the others.
  unfoldable pub pick : ℕ → A → List A → A × List A
  pick zero x xs = (x, xs)
  pick (suc k) x [] = (x, [])
  pick (suc k) x (y ∷ ys) = let (z, rest) = pick k y ys in (z, x ∷ rest)

  unfoldable pub completed : List ℕ → List A → List A
  unfolding pick
  completed [] xs = xs
  completed (k ∷ ks) [] = []
  completed (k ∷ ks) (x ∷ xs) = let (y, rest) = pick k x xs in y ∷ completed ks rest

  pick-perm : (k : ℕ) (x : A) (xs : List A) → Perm ((pick k x xs).0 ∷ (pick k x xs).1) (x ∷ xs)
  unfolding pick
  pick-perm zero x xs = Perm.refl (x ∷ xs)
  pick-perm (suc k) x [] = Perm.refl (x ∷ [])
  pick-perm (suc k) x (y ∷ ys) =
      Perm.trans (Perm.swap x (pick k y ys).0 (pick k y ys).1) (Perm.cons x (pick-perm k y ys))

  completed-perm : (ks : List ℕ) (xs : List A) → Perm (completed ks xs) xs
  unfolding completed
  completed-perm [] xs = Perm.refl xs
  completed-perm (k ∷ ks) [] = Perm.refl []
  completed-perm (k ∷ ks) (x ∷ xs) =
      Perm.trans (Perm.cons (pick k x xs).0 (completed-perm ks (pick k x xs).1)) (pick-perm k x xs)

  Elem-pick :
      (a : A) (k : ℕ) (x : A) (xs : List A)
      → Elem a ((pick k x xs).0 ∷ (pick k x xs).1)
      → Elem a (x ∷ xs)
  unfolding pick
  Elem-pick a zero x xs h = h
  Elem-pick a (suc k) x [] h = h
  Elem-pick a (suc k) x (y ∷ ys) (here e) = there (Elem-pick a k y ys (here e))
  Elem-pick a (suc k) x (y ∷ ys) (there (here e)) = here e
  Elem-pick a (suc k) x (y ∷ ys) (there (there h)) = there (Elem-pick a k y ys (there h))

  pick-Elem :
      (a : A) (k : ℕ) (x : A) (xs : List A)
      → Elem a (x ∷ xs)
      → Elem a ((pick k x xs).0 ∷ (pick k x xs).1)
  unfolding pick
  pick-Elem a zero x xs h = h
  pick-Elem a (suc k) x [] h = h
  pick-Elem a (suc k) x (y ∷ ys) (here e) = there (here e)
  pick-Elem a (suc k) x (y ∷ ys) (there h) = elim (pick-Elem a k y ys h) [
    | here e ↦ here e
    | there r ↦ there (there r)
  ]

  -- The tasks that complete are the tasks.
  pub Elem-completed : (a : A) (ks : List ℕ) (xs : List A) → Elem a (completed ks xs) → Elem a xs
  unfolding completed
  Elem-completed a [] xs h = h
  Elem-completed a (k ∷ ks) [] h = h
  Elem-completed a (k ∷ ks) (x ∷ xs) (here e) = Elem-pick a k x xs (here e)
  Elem-completed a (k ∷ ks) (x ∷ xs) (there h) =
      Elem-pick a k x xs (there (Elem-completed a ks (pick k x xs).1 h))

  pub completed-Elem : (a : A) (ks : List ℕ) (xs : List A) → Elem a xs → Elem a (completed ks xs)
  unfolding completed
  completed-Elem a [] xs h = h
  completed-Elem a (k ∷ ks) [] h = h
  completed-Elem a (k ∷ ks) (x ∷ xs) h = elim (pick-Elem a k x xs h) [
    | here e ↦ here e
    | there r ↦ there (completed-Elem a ks (pick k x xs).1 r)
  ]
