-- ===== src/Engine/Matcher/Suffix.antt =====
-- Parents of a domain: what stands behind one of its dots.
use Prim.Native.Char.{Char, code}
use Prim.Native.String.{[], ◌∷◌}
use mathlib.Core.WellFounded.{Acc, WellFounded}
use mathlib.Core.Path.{subst}
use ad_nope.Prelude.{
  ℕ, zero, suc, String, ◌<◌, ◌≤◌, ◌≡◌, ◌≢◌, none, some, arith, inl, inr, ◌⊎◌, Bool-cases, nat_beq,
}
use ad_nope.Prelude.Text.{length, after}

abbrev pub Shorter : String → String → Type 0
Shorter s t = length s < length t

acc_below : (k : ℕ) (s : String) → length s < k → Acc Shorter s
acc_below zero s h = absurd (omega arith)
acc_below (suc k) s h = Acc.intro s λ t shorter. acc_below k t (omega arith)

unfoldable pub Shorter-wf : WellFounded Shorter
unfolding acc_below
Shorter-wf = record { apply = λ s. acc_below (suc (length s)) s (omega arith) }

pub after-shorter : (k : ℕ) (s t : String) → after k s ≡ some t → length t < length s
unfolding after
after-shorter k [] t h = cc
after-shorter k (c ∷ s) t h = ground (arith, after-shorter k s t)

-- `Below u s`: the text `u` is all that stands behind some dot of `s`.
pub data Below (u : String) : String → Type 0 where
  dot : {c : Char} {s : String} → code c ≡ b'.' → u ≡ s → Below u (c ∷ s)
  skip : {c : Char} {s : String} → Below u s → Below u (c ∷ s)

-- A domain itself, and every non-empty text behind one of its dots.
abbrev pub Parent : String → String → Type 0
Parent u s = (u ≡ s) ⊎ (Below u s × (u ≢ ""))

pub after-none : (s u : String) → after b'.' s ≡ none → ¬ Below u s
unfolding after
after-none [] u h b = elim b [ ]
after-none (c ∷ s) u h (dot e f) = ground arith
after-none (c ∷ s) u h (skip b) = after-none s u (ground arith) b

-- The text behind the first dot is below, and all that is below is that text or below it.
pub after-Below : (s t : String) → after b'.' s ≡ some t → Below t s
unfolding after
after-Below [] t h = cc
after-Below (c ∷ s) t h = elim (Bool-cases (nat_beq (code c) b'.')) [
  | inl e ↦ dot (ground arith) (ground arith)
  | inr e ↦ skip (after-Below s t (ground arith))
]

pub Below-after : (s t u : String) → after b'.' s ≡ some t → Below u s → (u ≡ t) ⊎ Below u t
unfolding after
Below-after [] t u h b = elim b [ ]
Below-after (c ∷ s) t u h (dot e f) = inl (ground arith)
Below-after (c ∷ s) t u h (skip b) = elim (Bool-cases (nat_beq (code c) b'.')) [
  | inl e ↦ inr (let p : s ≡ t = ground arith in subst (λ x. Below u x) p b)
  | inr e ↦ Below-after s t u (ground arith) b
]

Below-shorter : (s u : String) → Below u s → length u < length s
Below-shorter (c ∷ s) u (dot e f) = rw f (omega arith)
Below-shorter (c ∷ s) u (skip b) = omega (arith, Below-shorter s u b)
Below-shorter [] u b = elim b [ ]

pub Below-trans : (s t u : String) → Below t s → Below u t → Below u s
Below-trans (c ∷ s) t u (dot e f) b = skip (subst (λ x. Below u x) f b)
Below-trans (c ∷ s) t u (skip a) b = skip (Below-trans s t u a b)
Below-trans [] t u a b = elim a [ ]

pub Parent-length-le : (s v : String) → Parent v s → length v ≤ length s
Parent-length-le s v (inl e) = rw e (omega arith)
Parent-length-le s v (inr (b, ne)) = omega (arith, Below-shorter s v b)

pub not-Below-nil : (u t : String) → t ≡ "" → ¬ Below u t
not-Below-nil u [] e b = elim b [ ]
not-Below-nil u (c ∷ t) e b = cc
