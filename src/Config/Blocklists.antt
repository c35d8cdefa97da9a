-- ===== src/Config/Blocklists.antt =====
-- `Config::get_blocklists_sorted` of src/config.rs: the blocklists in the order of their names,
-- whatever the order in which the hash map yields them.
use mathlib.Core.List.{Nodup, Perm, map}
use mathlib.Core.Quot
use mathlib.Core.Quot.{Quot, Quot-set}
use ad_nope.Prelude.{String, ◌≡◌, refl, Bool, List}
use ad_nope.Prelude.HashMap.{HashMap}
use ad_nope.Prelude.Sort.{sort, IsSorted, sort-perm, sort-IsSorted, sort-eq_of_perm}
use ad_nope.Prelude.Text.{str_le, str_le_total, str_le_trans, str_le_antisymm, String-set}

abbrev pub name_le : String × String → String × String → Bool
name_le p q = str_le p.0 q.0

unfoldable pub get_blocklists_sorted : HashMap String String → List (String × String)
unfolding sort str_le
get_blocklists_sorted blocklists = sort name_le blocklists

-- The list is in ascending order of the names.
get_blocklists_sorted-IsSorted :
    (m : HashMap String String) → IsSorted name_le (get_blocklists_sorted m)
unfolding get_blocklists_sorted
get_blocklists_sorted-IsSorted m =
    sort-IsSorted name_le (λ p q. str_le_total p.0 q.0) (λ p q r. str_le_trans p.0 q.0 r.0) m

-- It holds the configured blocklists and nothing else.
get_blocklists_sorted-perm : (m : HashMap String String) → Perm (get_blocklists_sorted m) m
unfolding get_blocklists_sorted
get_blocklists_sorted-perm m = sort-perm name_le m

entry_set : IsSet (String × String)
entry_set = hlevel String-set

-- Two hash maps with the same entries, in whatever order they are yielded, have the same list.
pub get_blocklists_sorted-eq_of_perm :
    (m n : HashMap String String)
    → Nodup (map (λ e. e.0) m)
    → Perm m n
    → get_blocklists_sorted m ≡ get_blocklists_sorted n
unfolding get_blocklists_sorted
get_blocklists_sorted-eq_of_perm m n d p =
    sort-eq_of_perm name_le (λ p q. str_le_total p.0 q.0) (λ p q r. str_le_trans p.0 q.0 r.0)
      (λ e. e.0) entry_set (λ p q. str_le_antisymm p.0 q.0) d p

-- A hash map: entries with different keys, up to the order in which they are yielded.
abbrev pub Table : Type 0
Table = (m : HashMap String String) × Nodup (map (λ e. e.0) m)

abbrev pub Blocklists : Type 0
Blocklists = Quot (λ (s t : Table). Perm s.0 t.0)

list_set : IsSet (List (String × String))
list_set = hlevel String-set

-- The sorted list is a function of the map without the order.
sorted_of : Blocklists → List (String × String)
unfolding get_blocklists_sorted
sorted_of =
    Quot.lift list_set (λ t. get_blocklists_sorted t.0)
      (λ s t p. get_blocklists_sorted-eq_of_perm s.0 t.0 s.1 p)

sorted_of-mk : (t : Table) → sorted_of (Quot.mk t) ≡ get_blocklists_sorted t.0
unfolding sorted_of
sorted_of-mk t = refl
