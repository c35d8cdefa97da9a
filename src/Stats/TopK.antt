-- ===== src/Stats/TopK.antt =====
-- `get_top_k` of src/stats.rs: the greatest counts, in descending order.
use mathlib.Core.List.{Perm}
use ad_nope.Prelude.{
  ℕ, zero, suc, ◌≤◌, ◌≡◌, true, String, List, [], ◌∷◌, ◌++◌, map, arith, take, drop, All, All-map,
  length, min, length-map, ◌∙◌, ap,
}
use ad_nope.Prelude.HashMap.{HashMap}
use ad_nope.Prelude.Top.{All-take, All-drop, take-append-drop, length-take, length-perm}
use ad_nope.Prelude.Sort.{sort, IsSorted, sort-IsSorted, sort-perm}
use ad_nope.Stats.{TopItem, more_first, get_top_k}

abbrev pub items_of {ℓ} : {K : Type ℓ} → (K → String) → HashMap K ℕ → List TopItem
items_of to_string entries = map (λ e. record { name = to_string e.0; count = e.1 }) entries

-- Descending counts.
abbrev pub IsDescending : List TopItem → Type 0
IsDescending [] = Unit
IsDescending (x ∷ xs) = All (λ y. y.count ≤ x.count) xs × IsDescending xs

-- The list `l` is a top of `items`: they are `l` and other items, none of which counts more than
-- one of `l`.
pub record IsTop (items l rest : List TopItem) : Type 0 where
  pub parts : Perm (l ++ rest) items
  pub descending : IsDescending l
  pub greatest : All (λ x. All (λ y. y.count ≤ x.count) rest) l

le_of_more_first : (x y : TopItem) → more_first x y ≡ true → y.count ≤ x.count
le_of_more_first x y h = ground arith

descending : (xs : List TopItem) → IsSorted more_first xs → IsDescending xs
descending [] h = tt
descending (x ∷ xs) h = (All-map _ _ (le_of_more_first x) xs h.0, descending xs h.1)

take-IsDescending : (n : ℕ) (xs : List TopItem) → IsDescending xs → IsDescending (take n xs)
take-IsDescending zero xs h = tt
take-IsDescending (suc n) [] h = tt
take-IsDescending (suc n) (x ∷ xs) h = (All-take _ n xs h.0, take-IsDescending n xs h.1)

take-greatest :
    (n : ℕ) (xs : List TopItem)
    → IsDescending xs
    → All (λ x. All (λ y. y.count ≤ x.count) (drop n xs)) (take n xs)
take-greatest zero xs h = tt
take-greatest (suc n) [] h = tt
take-greatest (suc n) (x ∷ xs) h = (All-drop _ n xs h.0, take-greatest n xs h.1)

-- Exactly `k` items, or all if the map has fewer, in descending order of their counts, and no item
-- that is left out counts more than one that is shown. What is shown and what is left out are together
-- the map's entries.
pub get_top_k-IsTop {ℓ} :
    {K : Type ℓ} (to_string : K → String) (entries : HashMap K ℕ) (k : ℕ)
    → (length (get_top_k to_string entries k) ≡ min k (length entries))
      × ((rest : List TopItem) × IsTop
            (items_of to_string entries)
            (get_top_k to_string entries k)
            rest)
unfolding get_top_k
get_top_k-IsTop to_string entries k =
    let sorted = sort more_first (items_of to_string entries) in
    let h : IsDescending sorted =
      descending sorted
        (sort-IsSorted more_first (λ x y e. ground arith) (λ x y z p q. ground arith) _) in
    (
      length-take k sorted
          ∙ ap (λ n. min k n)
              (length-perm (sort-perm more_first (items_of to_string entries))
                ∙ length-map _ entries),
      (
        drop k sorted,
        record {
          parts =
              rw (take-append-drop k sorted) (sort-perm more_first (items_of to_string entries));
          descending = take-IsDescending k sorted h;
          greatest = take-greatest k sorted h;
        },
      ),
    )
