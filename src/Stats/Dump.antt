-- ===== src/Stats/Dump.antt =====
-- `dump_stats` of src/stats.rs, which writes the counters to the log. The rounding of a quotient to one
-- digit is a parameter.
use ad_nope.Prelude.{
  ℕ, ◌+◌, ◌%◌, ◌≡◌, refl, ap, ◌∙◌, String, List, [], ◌∷◌, map, sum, get_elem?, get_or, ltb, arith,
  if◌then◌else◌,
}
use ad_nope.Prelude.Text.{concat}
use ad_nope.Prelude.Decimal.{to_string}
use ad_nope.Prelude.Words.{u64_mod}
use ad_nope.Stats.{StatsCollector}
use ad_nope.Stats.SourceCounts.{IsShared}

-- `{:.1}` of a quotient of `f64`, of a hundred times one, and of 0.0.
pub record Floats : Type 0 where
  pub average : ℕ → ℕ → String
  pub percent : ℕ → ℕ → String
  pub zero_percent : String

abbrev name_at : List String → ℕ → String
name_at names i = get_or (get_elem? names i) "Unknown"

-- The loop over the counters by source, from the index `i` on: those that are not 0.
unfoldable pub listed_sources : List String → ℕ → List ℕ → List (String × ℕ)
listed_sources names i [] = []
listed_sources names i (count ∷ rest) =
    let others = listed_sources names (i + 1) rest in
    if ltb 0 count then (name_at names i, count) ∷ others else others

-- The loop over the upstreams, with the sum and the number of their latencies.
unfoldable pub listed_upstreams : List String → ℕ → List ℕ → List ℕ → List (String × ℕ × ℕ)
listed_upstreams names i (count ∷ counts) (total ∷ totals) =
    let others = listed_upstreams names (i + 1) counts totals in
    if ltb 0 count then (name_at names i, total, count) ∷ others else others
listed_upstreams names i [] totals = []
listed_upstreams names i (count ∷ counts) [] = []

-- `"[{}: {} ({:.1}%)] "` for each
unfoldable pub sources_text : Floats → ℕ → List (String × ℕ) → String
unfolding to_string
sources_text floats blocked [] = ""
sources_text floats blocked ((name, count) ∷ rest) = concat "[" (
    concat name (
      concat ": " (
        concat (to_string count) (
          concat " (" (
            concat (floats.percent count blocked)
              (concat "%)] " (sources_text floats blocked rest)))))))

-- `"[{}: {:.1}ms] "` for each
unfoldable pub upstreams_text : Floats → List (String × ℕ × ℕ) → String
upstreams_text floats [] = ""
upstreams_text floats ((name, total, count) ∷ rest) = concat "[" (
    concat name (
      concat ": "
        (concat (floats.average total count) (concat "ms] " (upstreams_text floats rest)))))

unfoldable pub block_stats : Floats → StatsCollector → String
unfolding listed_sources sources_text
block_stats floats s =
    if ltb 0 s.blocked_queries
    then concat " BlockStats: " (
        sources_text floats s.blocked_queries
          (listed_sources s.blocklist_names 0 s.blocked_queries_by_source_id))
    else ""

abbrev share : Floats → ℕ → ℕ → String
share floats part total = if ltb 0 total then floats.percent part total else floats.zero_percent

unfoldable pub dump_stats : Floats → StatsCollector → String
unfolding to_string listed_upstreams upstreams_text block_stats
dump_stats floats s =
    let upstream_stats =
      upstreams_text floats
        (listed_upstreams s.upstream_names 0 s.upstream_count s.upstream_total_ms) in
    concat "STATS DUMP: Total: " (
      concat (to_string s.total_queries) (
        concat ", Blocked: " (
          concat (to_string s.blocked_queries) (
            concat " (" (
              concat (share floats s.blocked_queries s.total_queries) (
                concat "%), CacheHits: " (
                  concat (to_string s.cache_hits) (
                    concat " (" (
                      concat (share floats s.cache_hits s.total_queries) (
                        concat "%), Upstreams: "
                          (concat upstream_stats (block_stats floats s))))))))))))

sum-listed_sources :
    (names : List String) (i : ℕ) (counts : List ℕ)
    → sum (map (λ (l : String × ℕ). l.1) (listed_sources names i counts)) ≡ sum counts
unfolding listed_sources
sum-listed_sources names i [] = refl
sum-listed_sources names i (count ∷ rest) = ground (arith, sum-listed_sources names (i + 1) rest)

-- The sources that a dump lists share out the blocked queries, modulo 2^64.
listed_sources-IsShared :
    (s : StatsCollector)
    → IsShared s
    → sum (
          map
            (λ (l : String × ℕ). l.1)
            (listed_sources s.blocklist_names 0 s.blocked_queries_by_source_id))
        % u64_mod
      ≡ s.blocked_queries
listed_sources-IsShared s h =
    ap (λ n. n % u64_mod) (sum-listed_sources s.blocklist_names 0 s.blocked_queries_by_source_id)
    ∙ h.shared
