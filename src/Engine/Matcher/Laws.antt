-- ===== src/Engine/Matcher/Laws.antt =====
-- What `check` answers: the most specific listed parent, unless the domain is on the allowlist.
use mathlib.Core.WellFounded.{Acc}
use mathlib.Core.Path.{subst}
use ad_nope.Prelude.{
  ℕ, String, ◌<◌, ◌≡◌, ◌≢◌, refl, ap, sym, ◌∙◌, true, false, Option, none, some, arith, inl, inr,
  ◌⊎◌, Bool-cases, Option-cases, string_eq,
}
use ad_nope.Prelude.HashMap
use ad_nope.Prelude.HashMap.{HashMap}
use ad_nope.Prelude.Text.{after, is_empty, length}
use ad_nope.Engine.Matcher.{HashedMatcher, strip_label, check_part, check}
use ad_nope.Engine.Matcher.Suffix.{
  Shorter, Shorter-wf, Parent, Below, after-none, after-Below, Below-after, Below-trans,
  Parent-length-le, not-Below-nil, after-shorter,
}

-- Whether a parent of a domain is listed, and whether none is.
abbrev pub IsUnlisted : HashMap String ℕ → String → Type 0
IsUnlisted domains s = (u : String) → Parent u s → HashMap.get u domains ≡ none

-- The parent `u` is listed with `id`, and no longer parent is listed.
pub record Nearest (domains : HashMap String ℕ) (s u : String) (id : ℕ) : Type 0 where
  pub parent : Parent u s
  pub listed : HashMap.get u domains ≡ some id
  pub longest : (v : String) → Parent v s → length u < length v → HashMap.get v domains ≡ none

-- The answer of the loop, by what is listed.
abbrev pub Answers : HashMap String ℕ → String → Option ℕ → Type 0
Answers domains s none = IsUnlisted domains s
Answers domains s (some id) = (u : String) × Nearest domains s u id

is_empty-false : (s : String) → is_empty s ≡ false → s ≢ ""
unfolding is_empty
is_empty-false s h = λ e. cc (ap is_empty e)

is_empty-true : (s : String) → is_empty s ≡ true → s ≡ ""
unfolding is_empty
is_empty-true String.[] h = refl
is_empty-true (String.◌∷◌ c s) h = cc

module _ (domains : HashMap String ℕ) (s : String) (unlisted : HashMap.get s domains ≡ none) where
  -- A parent of `s` that is not `s` is a parent of what stands behind the first dot.
  unlisted_above :
      (t : String)
      → after b'.' s ≡ some t
      → (v : String) → (Parent v t → HashMap.get v domains ≡ none)
      → Parent v s
      → HashMap.get v domains ≡ none
  unlisted_above t e v h (inl p) = rw p unlisted
  unlisted_above t e v h (inr (b, ne)) = elim (Below-after s t v e b) [
    | inl p ↦ h (inl p)
    | inr below ↦ h (inr (below, ne))
  ]

  -- Nothing is listed where the text ends at its first dot, or has none.
  IsUnlisted-last : (t : String) → after b'.' s ≡ some t → t ≡ "" → IsUnlisted domains s
  IsUnlisted-last t e empty v (inl p) = rw p unlisted
  IsUnlisted-last t e empty v (inr (b, ne)) = elim (Below-after s t v e b) [
    | inl p ↦ absurd (ne (p ∙ empty))
    | inr below ↦ absurd (not-Below-nil v t empty below)
  ]

  Parent-above :
      (t : String) → after b'.' s ≡ some t → t ≢ "" → (u : String) → Parent u t → Parent u s
  Parent-above t e ne u (inl p) = inr (subst (λ x. Below x s) (sym p) (after-Below s t e), rw p ne)
  Parent-above t e ne u (inr (b, h)) = inr (Below-trans s t u (after-Below s t e) b, h)

  -- What answers for the text behind the first dot answers for the whole.
  Answers-above :
      (t : String)
      → after b'.' s ≡ some t
      → t ≢ ""
      → (o : Option ℕ) → Answers domains t o
      → Answers domains s o
  Answers-above t e ne none h = λ v. unlisted_above t e v (h v)
  Answers-above t e ne (some id) (u, near) = (
    u,
    record {
      parent = Parent-above t e ne u near.parent;
      listed = near.listed;
      longest = λ v p l. unlisted_above t e v (λ q. near.longest v q l) p;
    },
  )

  IsUnlisted-single : after b'.' s ≡ none → IsUnlisted domains s
  IsUnlisted-single e u (inl p) = rw p unlisted
  IsUnlisted-single e u (inr (b, ne)) = absurd (after-none s u e b)

  strip_label-Answers :
      (next : (rest : String) → Shorter rest s → Option ℕ)
      → ((rest : String) (h : Shorter rest s) → Answers domains rest (next rest h))
      → (c : (after b'.' s ≡ none) ⊎ ((rest : String) × (after b'.' s ≡ some rest)))
      → Answers domains s (strip_label s next c)
  unfolding strip_label
  strip_label-Answers next ih (inl e) = λ u. IsUnlisted-single e u
  strip_label-Answers next ih (inr (rest, e)) = elim (Bool-cases (is_empty rest)) [
    | inl empty ↦ rw empty (IsUnlisted-last rest e (is_empty-true rest empty))
    | inr more ↦
        rw more (
          Answers-above rest e (is_empty-false rest more) _ (ih rest (after-shorter b'.' s rest e)))
  ]

module _ (domains : HashMap String ℕ) where
  check_part-Answers : (s : String) (w : Acc Shorter s) → Answers domains s (check_part domains s w)
  unfolding check_part
  check_part-Answers s (Acc.intro _ smaller) = elim (Option-cases (HashMap.get s domains)) [
    | inl e ↦
        rw (e, Answers, check_part)
          (strip_label-Answers domains s e (λ rest h. check_part domains rest (smaller rest h))
            (λ rest h. check_part-Answers rest (smaller rest h)) (Option-cases (after b'.' s)))
    | inr (id, e) ↦
        rw (e, Answers, check_part)
          (
            s,
            record {
              parent = inl refl;
              listed = e;
              longest = λ v p l. absurd (omega (arith, Parent-length-le s v p));
            },
          )
  ]

pub check-unallowed :
    (m : HashedMatcher) (domain : String)
    → HashMap.get domain m.allowlist ≡ none
    → Answers m.domains domain (check m domain)
unfolding check
check-unallowed m domain e =
    rw (e, Answers, check) (check_part-Answers m.domains domain (Shorter-wf.apply domain))

pub check-allowed :
    (m : HashedMatcher) (domain : String) (u : Unit {0})
    → HashMap.get domain m.allowlist ≡ some u
    → check m domain ≡ none
unfolding check
check-allowed m domain u e = rw (e, check) refl

-- For every matcher and domain, either the domain is on the allowlist and `check` answers nothing,
-- or it is not on the allowlist and then an answer is the source of the longest listed text among
-- the domain and its parents, and no answer means that none of them is listed.
pub check-Answers :
    (m : HashedMatcher) (domain : String)
    → ((HashMap.get domain m.allowlist ≡ some tt) × (check m domain ≡ none))
      ⊎ ((HashMap.get domain m.allowlist ≡ none) × Answers m.domains domain (check m domain))
check-Answers m domain = elim (Option-cases (HashMap.get domain m.allowlist)) [
  | inl e ↦ inr (e, check-unallowed m domain e)
  | inr (u, e) ↦ inl (e, check-allowed m domain u e)
]
