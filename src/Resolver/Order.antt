-- ===== src/Resolver/Order.antt =====
-- Every policy asks the upstreams in an order of its own, and gives the first answer.
use ad_nope.Prelude.{
  ℕ, zero, suc, ◌+◌, ◌%◌, ◌<◌, ◌≡◌, refl, ap, sym, ◌∙◌, String, List, [], ◌∷◌, Option, none, some,
  Result, ok, err, Outcome, returns, arith, length, get_elem?, get_elem?-some, drop, if◌then◌else◌,
}
use native.Mathlib.Nat.{mod-lt}
use ad_nope.Prelude.Index.{rotate, length-rotate, get_elem?-rotate, drop-get_elem?, drop_all}
use ad_nope.Prelude.Text.{contains}
use ad_nope.Dns.{Record}
use ad_nope.Stats.{StatsCollector, record_upstream_latency}
use ad_nope.Resolver.{Upstream, Reply, Answer, handle_lookup_result}
use ad_nope.Resolver.Policies.{
  or_next, all_failed, sequential_from, parallel_loop, futures_from, round_robin_loop,
}

-- What a lookup's result means: an answer, or nothing. No records is an answer too.
abbrev pub answer_of : Result (List Record) → Option (List Record)
answer_of (ok records) = some records
answer_of (err e) = if contains "no records found" e then some [] else none

length-futures_from : (k : ℕ) (us : List Upstream) → length (futures_from k us) ≡ length us
unfolding futures_from
length-futures_from k [] = refl
length-futures_from k (u ∷ us) = ap suc (length-futures_from (k + 1) us)

get_elem?-futures_from :
    (k : ℕ) (us : List Upstream) (j : ℕ) (u : Upstream)
    → get_elem? us j ≡ some u
    → get_elem? (futures_from k us) j ≡ some (k + j, u.url)
unfolding futures_from
get_elem?-futures_from k [] j u h = cc
get_elem?-futures_from k (v ∷ us) zero u h = ground arith
get_elem?-futures_from k (v ∷ us) (suc j) u h =
    let e : k + 1 + j ≡ k + suc j = omega arith in
    get_elem?-futures_from (k + 1) us j u h ∙ ap (λ n. some (n, u.url)) e

module _ (replies : ℕ → Reply) where
  -- The first upstream of an order that answers.
  abbrev pub first_answer : List (ℕ × String) → Option ((ℕ × String) × List Record)
  first_answer [] = none
  first_answer (u ∷ us) = elim (answer_of (replies u.0).res) [
    | some records ↦ some (u, records)
    | none ↦ first_answer us
  ]

  module _ (name : String) where
    -- The answer of the first upstream that gives one, whose latency alone is recorded; or the error
    -- that all failed, with nothing recorded.
    abbrev pub asked : List (ℕ × String) → StatsCollector → Result Answer × StatsCollector
    asked us stats = elim (first_answer us) [
      | none ↦ (err (all_failed name), stats)
      | some (u, records) ↦
          (ok (records, u.1), record_upstream_latency stats u.0 (replies u.0).elapsed_ms)
    ]

    pub parallel_loop-asked :
        (us : List (ℕ × String)) (stats : StatsCollector)
        → parallel_loop replies name us stats ≡ asked us stats
    unfolding parallel_loop handle_lookup_result
    parallel_loop-asked [] stats = refl
    parallel_loop-asked (u ∷ us) stats = ground (arith, parallel_loop-asked us stats)

    pub sequential_from-asked :
        (idx : ℕ) (us : List Upstream) (stats : StatsCollector)
        → sequential_from replies name idx us stats ≡ asked (futures_from idx us) stats
    unfolding sequential_from futures_from handle_lookup_result
    sequential_from-asked idx [] stats = refl
    sequential_from-asked idx (u ∷ us) stats =
        ground (arith, sequential_from-asked (idx + 1) us stats)

    or_next-asked :
        (u : ℕ × String) (us : List (ℕ × String)) (stats : StatsCollector)
        (rest : StatsCollector → Outcome (Result Answer × StatsCollector))
        → rest stats ≡ returns (asked us stats)
        → or_next (handle_lookup_result (replies u.0) stats u.0 u.1) rest
          ≡ returns (asked (u ∷ us) stats)
    unfolding handle_lookup_result
    or_next-asked u us stats rest h = ground arith

    round_robin_step :
        (us : List Upstream) (start rounds i : ℕ) (stats : StatsCollector) (u : Upstream)
        → get_elem? us ((start + i) % length us) ≡ some u
        → round_robin_loop replies name us start (suc rounds) i stats
          ≡ or_next
              (handle_lookup_result
                (replies ((start + i) % length us))
                stats
                ((start + i) % length us)
                u.url)
              (λ s. round_robin_loop replies name us start rounds (i + 1) s)
    unfolding round_robin_loop handle_lookup_result
    round_robin_step us start rounds i stats u h = rw (h, round_robin_loop)

    -- The loop over the indices from `start` on, around the end, asks the rotated list.
    pub round_robin_loop-asked :
        (us : List Upstream) (start rounds i : ℕ) (stats : StatsCollector)
        → start < length us
        → i + rounds ≡ length us
        → round_robin_loop replies name us start rounds i stats
          ≡ returns (asked (drop i (rotate start (futures_from 0 us))) stats)
    unfolding round_robin_loop
    round_robin_loop-asked us start zero i stats h e =
        let fs = futures_from 0 us in
        let n : length fs ≡ length us = length-futures_from 0 us in
        let l : length (rotate start fs) ≡ length fs = length-rotate start fs (omega arith) in
        rw (drop_all i (rotate start fs) (omega arith))
    round_robin_loop-asked us start (suc rounds) i stats h e =
        let fs = futures_from 0 us in
        let n : length fs ≡ length us = length-futures_from 0 us in
        let idx = (start + i) % length us in
        let (u, found) = get_elem?-some us idx (mod-lt (start + i) (omega arith)) in
        let zero_idx : 0 + idx ≡ idx = omega arith in
        let next : i + 1 ≡ suc i = omega arith in
        let here_is : get_elem? (rotate start fs) i ≡ some (idx, u.url) =
          get_elem?-rotate start fs i (omega arith) (omega arith)
          ∙ ap (λ m. get_elem? fs ((start + i) % m)) n
          ∙ get_elem?-futures_from 0 us idx u found
          ∙ ap (λ j. some (j, u.url)) zero_idx in
        round_robin_step us start rounds i stats u found
        ∙ or_next-asked (idx, u.url) (drop (suc i) (rotate start fs)) stats _
            (round_robin_loop-asked us start rounds (i + 1) stats h (omega arith)
              ∙ ap (λ j. returns (asked (drop j (rotate start fs)) stats)) next)
        ∙ ap (λ l. returns (asked l stats)) (sym (drop-get_elem? i (rotate start fs) _ here_is))
