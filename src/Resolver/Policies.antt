-- ===== src/Resolver/Policies.antt =====
-- src/resolver/single.rs, sequential.rs, round_robin.rs, parallel.rs: the four ways to ask the
-- upstreams. `replies` gives the reply of each upstream, by its index, to the query at hand.
use Prim.Native.String.{◌++◌}
use ad_nope.Prelude.{
  ℕ, zero, suc, ◌+◌, ◌%◌, String, List, [], ◌∷◌, none, some, Result, ok, err, Outcome, returns,
  panics, length, get_elem?, ◌==◌, nat_eq, if◌then◌else◌,
}
use ad_nope.Prelude.Schedule.{completed}
use ad_nope.Prelude.Words.{add_u64}
use ad_nope.Stats.{StatsCollector}
use ad_nope.Resolver.{Upstream, Reply, Answer, handle_lookup_result}

-- `return` on an answer; on an error the rest of the loop runs, on the statistics as they are.
abbrev pub or_else :
    Result Answer × StatsCollector
    → (StatsCollector → Result Answer × StatsCollector)
    → Result Answer × StatsCollector
or_else (ok val, stats) rest = (ok val, stats)
or_else (err e, stats) rest = rest stats

-- The same where the rest of the loop may panic.
abbrev pub or_next :
    Result Answer × StatsCollector
    → (StatsCollector → Outcome (Result Answer × StatsCollector))
    → Outcome (Result Answer × StatsCollector)
or_next (ok val, stats) rest = returns (ok val, stats)
or_next (err e, stats) rest = rest stats

abbrev pub all_failed : String → String
all_failed name = "All upstreams failed for " ++ name

-- An error keeps the statistics, and becomes the resolver's own error.
abbrev pub single_error : String → Result Answer × StatsCollector → Result Answer × StatsCollector
single_error name (ok val, stats) = (ok val, stats)
single_error name (err e, stats) = (err ("Upstream failed for " ++ name), stats)

-- `upstreams.iter().enumerate()`, from an index on
unfoldable pub futures_from : ℕ → List Upstream → List (ℕ × String)
futures_from idx [] = []
futures_from idx (upstream ∷ rest) = (idx, upstream.url) ∷ futures_from (idx + 1) rest

module _ (replies : ℕ → Reply) (name : String) where
  unfoldable pub resolve_single : Upstream → StatsCollector → Result Answer × StatsCollector
  resolve_single upstream stats =
      single_error name (handle_lookup_result (replies 0) stats 0 upstream.url)

  -- The loop of `SequentialResolver::resolve`, from the index `idx` on.
  unfoldable pub sequential_from :
      ℕ → List Upstream → StatsCollector → Result Answer × StatsCollector
  sequential_from idx [] stats = (err (all_failed name), stats)
  sequential_from idx (upstream ∷ rest) stats =
      or_else (handle_lookup_result (replies idx) stats idx upstream.url)
        (λ s. sequential_from (idx + 1) rest s)

  unfoldable pub resolve_sequential :
      List Upstream → StatsCollector → Result Answer × StatsCollector
  resolve_sequential upstreams stats = sequential_from 0 upstreams stats

  -- The loop of `ParallelResolver::resolve` over the futures, in the order in which they complete.
  unfoldable pub parallel_loop : List (ℕ × String) → StatsCollector → Result Answer × StatsCollector
  parallel_loop [] stats = (err (all_failed name), stats)
  parallel_loop ((idx, url) ∷ remaining) stats =
      or_else (handle_lookup_result (replies idx) stats idx url) (λ s. parallel_loop remaining s)

  unfoldable pub resolve_parallel :
      List ℕ → List Upstream → StatsCollector → Result Answer × StatsCollector
  resolve_parallel schedule upstreams stats =
      parallel_loop (completed schedule (futures_from 0 upstreams)) stats

  -- `for i in 0..upstreams.len()`: `rounds` are left. An index out of bounds panics.
  unfoldable pub round_robin_loop :
      List Upstream → ℕ → ℕ → ℕ → StatsCollector → Outcome (Result Answer × StatsCollector)
  round_robin_loop upstreams start zero i stats = returns (err (all_failed name), stats)
  round_robin_loop upstreams start (suc rounds) i stats =
      let idx = (start + i) % length upstreams in
      let rest = λ (s : StatsCollector). round_robin_loop upstreams start rounds (i + 1) s in
      elim (get_elem? upstreams idx) [
        | none ↦ panics
        | some upstream ↦ or_next (handle_lookup_result (replies idx) stats idx upstream.url) rest
      ]

  -- The result, with the counter `current` after `fetch_add`. A remainder by zero panics, after the
  -- counter is written.
  unfoldable pub resolve_round_robin :
      List Upstream → ℕ → StatsCollector → Outcome (Result Answer × StatsCollector) × ℕ
  resolve_round_robin upstreams current stats =
      if length upstreams == 0 then (panics, add_u64 current 1) else (
        round_robin_loop upstreams (current % length upstreams) (length upstreams) 0 stats,
        add_u64 current 1,
      )
