-- ===== src/Engine/Matcher.antt =====
-- src/engine/domain_matcher.rs: `HashedMatcher`, which looks up a domain and its parents.
pub mod Suffix
pub mod Laws
use mathlib.Core.WellFounded.{Acc, WellFounded}
use ad_nope.Prelude.{
  ℕ, String, ◌≡◌, Option, none, some, List, [], ◌∷◌, ◌⊎◌, inl, inr, if◌then◌else◌, Option-cases,
  string_eq,
}
use ad_nope.Prelude.HashMap
use ad_nope.Prelude.HashMap.{HashMap}
use ad_nope.Prelude.Text.{after, is_empty}
use Suffix.{Shorter, Shorter-wf, after-shorter}

pub record HashedMatcher : Type 0 where
  pub domains : HashMap String ℕ
  pub allowlist : HashMap String (Unit {0})

-- The loop of `new` over the allowlist.
unfoldable pub allow_all : List String → HashMap String (Unit {0}) → HashMap String (Unit {0})
allow_all [] allowlist = allowlist
allow_all (d ∷ rest) allowlist = allow_all rest (HashMap.insert d tt allowlist)

unfoldable pub new : HashMap String ℕ → List String → HashedMatcher
unfolding allow_all
new domains allowlist_vec = record { domains = domains; allowlist = allow_all allowlist_vec [] }

-- The end of a round of the loop of `check`: the next part is what stands behind the first dot, if
-- that is not empty. `next` is the rest of the loop.
unfoldable pub strip_label :
    (part : String)
    → ((rest : String) → Shorter rest part → Option ℕ)
    → (after b'.' part ≡ none) ⊎ ((rest : String) × (after b'.' part ≡ some rest))
    → Option ℕ
unfolding is_empty
strip_label part next (inl _) = none
strip_label part next (inr (rest, e)) =
    if is_empty rest then none else next rest (after-shorter b'.' part rest e)

-- The loop of `check`.
unfoldable pub check_part : HashMap String ℕ → (part : String) → Acc Shorter part → Option ℕ
unfolding strip_label
check_part domains part (Acc.intro _ smaller) =
    let parents =
      strip_label part (λ rest h. check_part domains rest (smaller rest h))
        (Option-cases (after b'.' part)) in
    elim (HashMap.get part domains) [ some source_id ↦ some source_id | none ↦ parents ]

unfoldable pub check : HashedMatcher → String → Option ℕ
unfolding check_part Shorter-wf
check m domain = elim (HashMap.get domain m.allowlist) [
  | some _ ↦ none
  | none ↦ check_part m.domains domain (Shorter-wf.apply domain)
]
