-- ===== src/Db/Counts.antt =====
-- What `get_stats` of src/db.rs reports of the entries that were inserted.
use mathlib.Core.List.Perm
use mathlib.Core.Path.{ap₂}
use ad_nope.Prelude.{
  ℕ, ◌+◌, ◌≤◌, ◌≡◌, refl, ap, ◌∙◌, String, Bool, true, Option, none, some, List, [], ◌∷◌, map,
  returns, length, length-map, length-take-le, drop, get_or, arith, ◌==◌, ==_iff, string_eq,
  if◌then◌else◌,
}
use ad_nope.Prelude.HashMap
use ad_nope.Prelude.HashMap.{HashMap}
use ad_nope.Prelude.Sort.{sort, IsSorted, sort-perm, sort-IsSorted}
use ad_nope.Prelude.Top.{take-append-drop, take-IsSorted, take-first, IsFirst}
use ad_nope.Logger.{QueryLogAction, allowed, blocked, cached, forwarded, local}
use ad_nope.Logger.Outcomes.{is_blocked, is_cached}
use ad_nope.Stats.{TopItem, more_first, StatsSnapshot}
use ad_nope.Db.{Row, Sqlite, Formats, action_to_string, row_of}
use ad_nope.Db.Queries.{where_action, count_rows, group_by, get_top, snapshot_of, get_stats}
use ad_nope.Db.Entries.{Stamped, rows_for, insert_all-rows, client_after}

-- How many elements pass a test.
abbrev pub count_if {ℓ} : {A : Type ℓ} → (A → Bool) → List A → ℕ
count_if p [] = 0
count_if p (x ∷ xs) = (if p x then 1 else 0) + count_if p xs

-- Whether the row is one that `WHERE` selects.
abbrev selects : Option String → Row → Bool
selects none row = true
selects (some name) row = row.action == name

count_rows-count_if :
    (action : Option String) (rows : List Row)
    → count_rows action rows ≡ count_if (selects action) rows
unfolding count_rows
count_rows-count_if none [] = refl
count_rows-count_if none (r ∷ rows) = omega (arith, count_rows-count_if none rows)
count_rows-count_if (some name) [] = refl
count_rows-count_if (some name) (r ∷ rows) = ground (arith, count_rows-count_if (some name) rows)

-- Rows that are grouped by a key: the groups count the rows of each key.
get-group_by :
    (key : Row → String) (k : String) (rows : List Row)
    → get_or (HashMap.get k (group_by key rows)) 0 ≡ count_if (λ r. key r == k) rows
unfolding group_by
get-group_by key k [] = ap (λ o. get_or o 0) (HashMap.get-nil k)
get-group_by key k (r ∷ rows) = ground (
  arith,
  HashMap.get-insert (key r) k (get_or (HashMap.get (key r) (group_by key rows)) 0 + 1)
      (group_by key rows),
  ==_iff (key r) k,
  get-group_by key k rows,
)

action_to_string-blocked : (x : QueryLogAction) → (action_to_string x == "Blocked") ≡ is_blocked x
unfolding action_to_string
action_to_string-blocked allowed = refl
action_to_string-blocked blocked = refl
action_to_string-blocked cached = refl
action_to_string-blocked forwarded = refl
action_to_string-blocked local = refl

action_to_string-cached : (x : QueryLogAction) → (action_to_string x == "Cached") ≡ is_cached x
unfolding action_to_string
action_to_string-cached allowed = refl
action_to_string-cached blocked = refl
action_to_string-cached cached = refl
action_to_string-cached forwarded = refl
action_to_string-cached local = refl

count_if-map {ℓ κ} :
    {A : Type ℓ} {B : Type κ} (f : A → B) (p : B → Bool) (q : A → Bool)
    → ((a : A) → p (f a) ≡ q a)
    → (xs : List A) → count_if p (map f xs) ≡ count_if q xs
count_if-map f p q h [] = refl
count_if-map f p q h (x ∷ xs) =
    ap₂ (λ b n. (if b then 1 else 0) + n) (h x) (count_if-map f p q h xs)

-- The action of a stamped entry.
abbrev pub action_of : Stamped → QueryLogAction
action_of s = s.1.action

module _ (formats : Formats) (sqlite : Sqlite) where
  blocked_rows :
      (es : List Stamped)
      → count_rows (some "Blocked") (rows_for formats es)
        ≡ count_if (λ s. is_blocked (action_of s)) es
  unfolding row_of
  blocked_rows es =
      count_rows-count_if (some "Blocked") (rows_for formats es)
      ∙ count_if-map _ (λ r. r.action == "Blocked") (λ s. is_blocked (action_of s))
          (λ s. action_to_string-blocked (action_of s)) es

  cached_rows :
      (es : List Stamped)
      → count_rows (some "Cached") (rows_for formats es)
        ≡ count_if (λ s. is_cached (action_of s)) es
  unfolding row_of
  cached_rows es =
      count_rows-count_if (some "Cached") (rows_for formats es)
      ∙ count_if-map _ (λ r. r.action == "Cached") (λ s. is_cached (action_of s))
          (λ s. action_to_string-cached (action_of s)) es

  get_stats-snapshot_of :
      (now : ℕ) (es : List Stamped)
      → (get_stats sqlite now (client_after formats es)).0
        ≡ returns (snapshot_of sqlite now (rows_for formats es))
  unfolding get_stats
  get_stats-snapshot_of now es = rw (insert_all-rows formats es [] []) refl

  all_rows : (es : List Stamped) → count_rows none (rows_for formats es) ≡ length es
  unfolding count_rows
  all_rows es = length-map (λ (s : Stamped). row_of formats s.0 s.1 s.2) es

  -- After insertions, `get_stats` counts all of the entries, those that were blocked and those that were
  -- answered from the cache.
  pub get_stats-counts :
      (now : ℕ) (es : List Stamped)
      → (shown : StatsSnapshot) × ((get_stats sqlite now (client_after formats es)).0
          ≡ returns shown)
        × (shown.total_queries ≡ length es)
        × (shown.blocked_queries ≡ count_if (λ s. is_blocked (action_of s)) es)
        × (shown.cache_hits ≡ count_if (λ s. is_cached (action_of s)) es)
  unfolding snapshot_of
  get_stats-counts now es = (
    snapshot_of sqlite now (rows_for formats es),
    get_stats-snapshot_of now es,
    all_rows es,
    blocked_rows es,
    cached_rows es,
  )

-- The groups of the selected rows, as items.
abbrev pub items_by : (Row → String) → List Row → List TopItem
items_by key rows = map (λ e. record { name = e.0; count = e.1 }) (group_by key rows)

-- The lists of `get_stats` hold at most five groups of the selected rows, in descending order of their
-- sizes, and no group that is left out is greater than one that is shown; and the groups count the
-- rows of every key.
get_top-IsFirst :
    (sqlite : Sqlite) (key : Row → String) (action : Option String) (rows : List Row)
    → (rest : List TopItem) × IsFirst more_first
        (items_by key (where_action action rows))
        (get_top sqlite key action rows)
        rest
      × (length (get_top sqlite key action rows) ≤ 5)
      × ((k : String)
          → get_or (HashMap.get k (group_by key (where_action action rows))) 0
            ≡ count_if (λ r. key r == k) (where_action action rows))
unfolding get_top
get_top-IsFirst sqlite key action rows =
    let items = sqlite.arrange TopItem (items_by key (where_action action rows)) in
    let sorted = sort more_first items in
    (
      drop 5 sorted,
      record {
        parts =
            rw (take-append-drop 5 sorted)
              (Perm.trans (sort-perm more_first items) (sqlite.arrange-perm TopItem _));
        sorted = take-IsSorted more_first 5 sorted sorted_items;
        first = take-first more_first 5 sorted sorted_items;
      },
      length-take-le 5 sorted,
      λ k. get-group_by key k (where_action action rows),
    )
  where
    sorted_items :
        IsSorted more_first
          (sort more_first (sqlite.arrange TopItem (items_by key (where_action action rows))))
    sorted_items = sort-IsSorted more_first (λ x y e. ground arith) (λ x y z p q. ground arith) _
