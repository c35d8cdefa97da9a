-- ===== src/Resolver/Answers.antt =====
-- What a resolution of src/resolver answers, for each policy, and that all policies answer alike.
use ad_nope.Prelude.{
  ℕ, ◌%◌, ◌<◌, ◌≡◌, refl, ap, sym, ◌∙◌, ◌↔◌, ◌≢◌, String, List, [], ◌∷◌, ◌++◌, none, Result, ok,
  Outcome, returns, arith, length, drop, take, Elem, here, there, Elem-append_left,
  Elem-append_right, Option-cases, inl, inr, zero, suc, ◌⊎◌, ==_ne, nat_eq,
}
use mathlib.Core.Path.{subst}
use native.Mathlib.Nat.{mod-lt}
use ad_nope.Prelude.Index.{rotate}
use ad_nope.Prelude.Schedule.{completed, Elem-completed, completed-Elem}
use ad_nope.Prelude.Words.{add_u64}
use ad_nope.Stats.{StatsCollector}
use ad_nope.Resolver.{Upstream, Reply, Answer}
use ad_nope.Resolver.Policies.{
  futures_from, resolve_sequential, resolve_parallel, resolve_round_robin,
}
use ad_nope.Resolver.Order.{
  answer_of, first_answer, asked, parallel_loop-asked, sequential_from-asked,
  round_robin_loop-asked,
}

module _ {ℓ} {A : Type ℓ} where
  Elem-split : (a : A) (n : ℕ) (xs : List A) → Elem a xs → Elem a (drop n xs) ⊎ Elem a (take n xs)
  Elem-split a zero xs h = inl h
  Elem-split a (suc n) (x ∷ xs) (here e) = inr (here e)
  Elem-split a (suc n) (x ∷ xs) (there h) = elim (Elem-split a n xs h) [
    | inl d ↦ inl d
    | inr t ↦ inr (there t)
  ]
  Elem-split a (suc n) [] h = elim h [ ]

  -- Every element of a list is one of the rotated list.
  Elem-rotate : (a : A) (n : ℕ) (xs : List A) → Elem a xs → Elem a (rotate n xs)
  Elem-rotate a n xs h = elim (Elem-split a n xs h) [
    | inl d ↦ Elem-append_left a (drop n xs) (take n xs) d
    | inr t ↦ Elem-append_right a (drop n xs) (take n xs) t
  ]

  Elem-append : (a : A) (xs ys : List A) → Elem a (xs ++ ys) → Elem a xs ⊎ Elem a ys
  Elem-append a [] ys h = inr h
  Elem-append a (x ∷ xs) ys (here e) = inl (here e)
  Elem-append a (x ∷ xs) ys (there h) = elim (Elem-append a xs ys h) [
    | inl l ↦ inl (there l)
    | inr r ↦ inr r
  ]

  Elem-drop : (a : A) (n : ℕ) (xs : List A) → Elem a (drop n xs) → Elem a xs
  Elem-drop a zero xs h = h
  Elem-drop a (suc n) [] h = elim h [ ]
  Elem-drop a (suc n) (x ∷ xs) h = there (Elem-drop a n xs h)

  Elem-take : (a : A) (n : ℕ) (xs : List A) → Elem a (take n xs) → Elem a xs
  Elem-take a zero xs h = elim h [ ]
  Elem-take a (suc n) [] h = elim h [ ]
  Elem-take a (suc n) (x ∷ xs) (here e) = here e
  Elem-take a (suc n) (x ∷ xs) (there h) = there (Elem-take a n xs h)

  rotate-Elem : (a : A) (n : ℕ) (xs : List A) → Elem a (rotate n xs) → Elem a xs
  rotate-Elem a n xs h = elim (Elem-append a (drop n xs) (take n xs) h) [
    | inl d ↦ Elem-drop a n xs d
    | inr t ↦ Elem-take a n xs t
  ]

module _ (replies : ℕ → Reply) where
  -- One of the upstreams answers.
  abbrev pub Answering : List (ℕ × String) → Type 0
  Answering us = (u : ℕ × String) × Elem u us × (answer_of (replies u.0).res ≢ none)

  answering : (us : List (ℕ × String)) → first_answer replies us ≢ none → Answering us
  answering [] h = absurd (h refl)
  answering (u ∷ us) h = elim (Option-cases (answer_of (replies u.0).res)) [
    | inl e ↦
        let (v, at, yields) = answering us (λ p. h (rw (e, first_answer) p)) in
        (v, there at, yields)
    | inr (records, e) ↦ (u, here refl, λ p. cc)
  ]

  first_answer-some : (us : List (ℕ × String)) → Answering us → first_answer replies us ≢ none
  first_answer-some (u ∷ us) (v, here p, yields) = λ e.
      elim (Option-cases (answer_of (replies u.0).res)) [
        | inl q ↦ yields (ap (λ (w : ℕ × String). answer_of (replies w.0).res) p ∙ q)
        | inr (records, q) ↦ ground arith
      ]
  first_answer-some (u ∷ us) (v, there at, yields) = λ e.
      elim (Option-cases (answer_of (replies u.0).res)) [
        | inl q ↦ first_answer-some us (v, at, yields) (ground arith)
        | inr (records, q) ↦ ground arith
      ]
  first_answer-some [] (v, at, yields) = elim at [ ]

  module _ (name : String) (stats : StatsCollector) where
    abbrev pub Succeeds : Result Answer → Type 0
    Succeeds r = (a : Answer) × (r ≡ ok a)

    asked_iff : (us : List (ℕ × String)) → Succeeds (asked replies name us stats).0 ↔ Answering us
    asked_iff us = (
      λ (a, e). answering us (λ p. ground arith),
      λ h. elim (Option-cases (first_answer replies us)) [
        | inl p ↦ absurd (first_answer-some us h p)
        | inr ((u, records), p) ↦ ((records, u.1), ground arith)
      ],
    )

    Answering-mono :
        (us vs : List (ℕ × String))
        → ((u : ℕ × String) → Elem u us → Elem u vs)
        → Answering us
        → Answering vs
    Answering-mono us vs f (u, at, yields) = (u, f u at, yields)

    -- The sequential policy gives the answer of the first configured upstream that has one.
    pub resolve_sequential-asked :
        (us : List Upstream)
        → resolve_sequential replies name us stats ≡ asked replies name (futures_from 0 us) stats
    unfolding resolve_sequential
    resolve_sequential-asked us = sequential_from-asked replies name 0 us stats

    -- The parallel policy gives the answer of the first upstream to complete with one.
    pub resolve_parallel-asked :
        (schedule : List ℕ) (us : List Upstream)
        → resolve_parallel replies name schedule us stats
          ≡ asked replies name (completed schedule (futures_from 0 us)) stats
    unfolding resolve_parallel
    resolve_parallel-asked schedule us =
        parallel_loop-asked replies name (completed schedule (futures_from 0 us)) stats

    -- With an upstream, the round-robin policy does not panic. It asks the upstreams once around,
    -- from the one that the counter points at, gives the first answer, and moves the counter on.
    pub resolve_round_robin-asked :
        (us : List Upstream) (current : ℕ)
        → 0 < length us
        → resolve_round_robin replies name us current stats ≡ (
          returns (asked replies name (rotate (current % length us) (futures_from 0 us)) stats),
          add_u64 current 1,
        )
    unfolding resolve_round_robin
    resolve_round_robin-asked us current h =
        let ne : length us ≢ 0 = omega arith in
        rw (==_ne (length us) 0 ne) (
          ap (λ r. (r, add_u64 current 1))
            (round_robin_loop-asked replies name us (current % length us) (length us) 0 stats
              (mod-lt current h) (omega arith)))

    order_iff :
        (us vs : List (ℕ × String)) (r : Result Answer × StatsCollector)
        → r ≡ asked replies name us stats
        → ((u : ℕ × String) → Elem u us → Elem u vs)
        → ((u : ℕ × String) → Elem u vs → Elem u us)
        → Succeeds r.0 ↔ Answering vs
    order_iff us vs r e f g = (
      λ s.
          Answering-mono us vs f
            ((asked_iff us).0 (subst (λ (x : Result Answer × StatsCollector). Succeeds x.0) e s)),
      λ h.
          subst (λ (x : Result Answer × StatsCollector). Succeeds x.0) (sym e)
            ((asked_iff us).1 (Answering-mono vs us g h)),
    )

    -- With an upstream, each of the three policies succeeds exactly when one of the upstreams
    -- answers, whatever the order of completion and the counter.
    pub policies_agree :
        (us : List Upstream) (schedule : List ℕ) (current : ℕ)
        → 0 < length us
        → (Succeeds (resolve_sequential replies name us stats).0 ↔ Answering (futures_from 0 us))
          × (Succeeds (resolve_parallel replies name schedule us stats).0
              ↔ Answering (futures_from 0 us))
          × ((r : Result Answer × StatsCollector) × ((resolve_round_robin replies name us current
                  stats).0
                ≡ returns r)
              × (Succeeds r.0 ↔ Answering (futures_from 0 us)))
    policies_agree us schedule current h =
        let fs = futures_from 0 us in
        let start = current % length us in
        (
          order_iff fs fs _ (resolve_sequential-asked us) (λ u x. x) (λ u x. x),
          order_iff (completed schedule fs) fs _ (resolve_parallel-asked schedule us)
              (λ u. Elem-completed u schedule fs) (λ u. completed-Elem u schedule fs),
          (
            asked replies name (rotate start fs) stats,
            ap (λ (x : Outcome (Result Answer × StatsCollector) × ℕ). x.0)
                (resolve_round_robin-asked us current h),
            order_iff (rotate start fs) fs _ refl (λ u. rotate-Elem u start fs)
                (λ u. Elem-rotate u start fs),
          ),
        )
