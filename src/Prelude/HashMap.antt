-- ===== src/Prelude/HashMap.antt =====
-- A hash map, as the list of its entries in the order of its iteration, which is unspecified.
use Prim.Native.Nat.{ℕ}
use mathlib.Core.Path.{◌≡◌, refl}
use mathlib.Core.List.{List, [], ◌∷◌}
use mathlib.Core.Option.{Option, none, some}
use native.Mathlib.Omega.{arith}
use ad_nope.Prelude.Tests.{if◌then◌else◌}
use ad_nope.Prelude.Classes.{Eq, ◌==◌, ==_refl}
use ad_nope.Prelude.Lists.{get_or}
use ad_nope.Prelude.Words.{add_u64}

abbrev pub HashMap {ℓ κ} : Type ℓ → Type κ → Type (ℓ ⊔ κ)
HashMap K V = List (K × V)

module _ {ℓ κ} {K : Type ℓ} {V : Type κ} ⦃e : Eq K⦄ where
  unfoldable pub get : K → HashMap K V → Option V
  get k [] = none
  get k ((j, v) ∷ m) = if j == k then some v else get k m

  -- The new value takes the place of the old one.
  unfoldable pub insert : K → V → HashMap K V → HashMap K V
  insert k v [] = (k, v) ∷ []
  insert k v ((j, w) ∷ m) = if j == k then (j, v) ∷ m else (j, w) ∷ insert k v m

  pub get-nil : (k : K) → get k [] ≡ none
  unfolding get
  get-nil k = refl

  pub get-insert :
      (k j : K) (v : V) (m : HashMap K V)
      → get j (insert k v m) ≡ (if k == j then some v else get j m)
  unfolding get insert
  get-insert k j v [] = refl
  get-insert k j v ((i, w) ∷ m) =
      ground (arith, e.eqb_iff i k, e.eqb_iff i j, e.eqb_iff k j, get-insert k j v m)

  get-insert_self : (k : K) (v : V) (m : HashMap K V) → get k (insert k v m) ≡ some v
  get-insert_self k v m = simp (get-insert, ==_refl)

-- `*map.entry(k).or_insert(0) += 1`, in a build without overflow checks
unfoldable pub bump {ℓ} : {K : Type ℓ} ⦃e : Eq K⦄ → K → HashMap K ℕ → HashMap K ℕ
bump k m = insert k (add_u64 (get_or (get k m) 0) 1) m

pub get_or-bump {ℓ} :
    {K : Type ℓ} ⦃e : Eq K⦄ (k j : K) (m : HashMap K ℕ)
    → get_or (get j (bump k m)) 0
      ≡ (if k == j then add_u64 (get_or (get j m) 0) 1 else get_or (get j m) 0)
unfolding bump
get_or-bump ⦃e⦄ k j m =
    ground (arith, e.eqb_iff k j, get-insert k j (add_u64 (get_or (get k m) 0) 1) m)
