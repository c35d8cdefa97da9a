-- ===== src/Stats/Counters.antt =====
-- The counters of src/stats.rs against the events that they count.
use ad_nope.Prelude.{
  ℕ, ◌+◌, ◌%◌, ◌<◌, ◌≡◌, refl, ap, Bool, String, List, [], ◌∷◌, arith, get_or, nat_eq, string_eq,
  if◌then◌else◌, length, length-replicate,
}
use ad_nope.Prelude.HashMap
use ad_nope.Prelude.HashMap.{HashMap, get_or-bump}
use ad_nope.Prelude.Words.{add_u64, u64_mod}
use ad_nope.Net.{IpAddr, ip_eq}
use ad_nope.Stats.{StatsCollector, new, sources, upstreams}
use ad_nope.Stats.Positions.{
  IsWide, apply_all-IsWide, counts_at, adds_at, apply-source, apply-replies, apply-times,
  counter_at-replicate,
}
use ad_nope.Stats.Events.{
  Event, client_query, client_block, domain_query, domain_block, apply, apply_all, occurrences,
  is_query, is_cache_hit, is_blocked, is_blocked_by, is_client_query, is_client_block,
  is_domain_query, is_domain_block, is_latency_of, milliseconds, counter_at, counter, methods,
}

-- A number of the state that rises by one, modulo 2^64, at the events of a kind, counts them.
counts_from :
    (value : StatsCollector → ℕ) (p : Event → Bool)
    → ((s : StatsCollector) (e : Event)
        → value (apply s e) ≡ (if p e then add_u64 (value s) 1 else value s))
    → (es : List Event) (s : StatsCollector) → value s < u64_mod
    → value (apply_all s es) ≡ (value s + occurrences p es) % u64_mod
unfolding apply_all
counts_from value p step [] s h = omega arith
counts_from value p step (e ∷ es) s h =
    ground (arith, step s e, counts_from value p step es (apply s e))

counts :
    (value : StatsCollector → ℕ) (p : Event → Bool)
    → ((s : StatsCollector) (e : Event)
        → value (apply s e) ≡ (if p e then add_u64 (value s) 1 else value s))
    → (es : List Event) (s : StatsCollector) → value s ≡ 0
    → value (apply_all s es) ≡ occurrences p es % u64_mod
counts value p step es s h = omega (arith, counts_from value p step es s (omega arith))

-- Every counter is the number of its events, or the sum of what they report, modulo 2^64.
pub record CountsEvents (es : List Event) (s : StatsCollector) : Type 0 where
  pub total : s.total_queries ≡ occurrences is_query es % u64_mod
  pub blocked : s.blocked_queries ≡ occurrences is_blocked es % u64_mod
  pub hits : s.cache_hits ≡ occurrences is_cache_hit es % u64_mod
  pub by_client :
      (ip : IpAddr) → counter ip s.client_queries ≡ occurrences (is_client_query ip) es % u64_mod
  pub client_blocks :
      (ip : IpAddr) → counter ip s.client_blocks ≡ occurrences (is_client_block ip) es % u64_mod
  pub by_domain :
      (d : String) → counter d s.domain_queries ≡ occurrences (is_domain_query d) es % u64_mod
  pub domain_blocks :
      (d : String) → counter d s.domain_blocks ≡ occurrences (is_domain_block d) es % u64_mod
  pub source_width : length s.blocked_queries_by_source_id ≡ sources
  pub by_source :
      (id : ℕ)
      → id < sources
      → counter_at s.blocked_queries_by_source_id id ≡ occurrences (is_blocked_by id) es % u64_mod
  pub upstream_width :
      (length s.upstream_count ≡ upstreams) × (length s.upstream_total_ms ≡ upstreams)
  pub replies :
      (i : ℕ)
      → i < upstreams
      → counter_at s.upstream_count i ≡ occurrences (is_latency_of i) es % u64_mod
  pub reply_times :
      (i : ℕ) → i < upstreams → counter_at s.upstream_total_ms i ≡ milliseconds i es % u64_mod

apply-client_query :
    (ip : IpAddr) (s : StatsCollector) (e : Event)
    → counter ip (apply s e).client_queries ≡ (
        if is_client_query ip e
        then add_u64 (counter ip s.client_queries) 1
        else counter ip s.client_queries)
unfolding methods
apply-client_query ip s (client_query k) = get_or-bump k ip s.client_queries
apply-client_query ip s e = ground arith

apply-client_block :
    (ip : IpAddr) (s : StatsCollector) (e : Event)
    → counter ip (apply s e).client_blocks ≡ (
        if is_client_block ip e
        then add_u64 (counter ip s.client_blocks) 1
        else counter ip s.client_blocks)
unfolding methods
apply-client_block ip s (client_block k) = get_or-bump k ip s.client_blocks
apply-client_block ip s e = ground arith

apply-domain_query :
    (d : String) (s : StatsCollector) (e : Event)
    → counter d (apply s e).domain_queries ≡ (
        if is_domain_query d e
        then add_u64 (counter d s.domain_queries) 1
        else counter d s.domain_queries)
unfolding methods
apply-domain_query d s (domain_query k) = get_or-bump k d s.domain_queries
apply-domain_query d s e = ground arith

apply-domain_block :
    (d : String) (s : StatsCollector) (e : Event)
    → counter d (apply s e).domain_blocks ≡ (
        if is_domain_block d e
        then add_u64 (counter d s.domain_blocks) 1
        else counter d s.domain_blocks)
unfolding methods
apply-domain_block d s (domain_block k) = get_or-bump k d s.domain_blocks
apply-domain_block d s e = ground arith

-- After any sequence of calls on a new collector, the three totals, every entry of the four maps, the
-- counter of each of the 256 sources, and the replies and the milliseconds of each of the 16 upstreams
-- are the number of the calls that they count, or the sum of the milliseconds that these report, modulo
-- 2^64. A blocked query counts in its source and in the total.
pub apply_all-CountsEvents :
    (now interval : ℕ) (upstream_names blocklist_names : List String) (es : List Event)
    → CountsEvents es (apply_all (new now interval upstream_names blocklist_names) es)
unfolding methods new
apply_all-CountsEvents now interval us bs es =
    let s = new now interval us bs in
    let wide : IsWide s = record {
      by_source = length-replicate {A = ℕ} sources 0;
      replies = length-replicate {A = ℕ} upstreams 0;
      times = length-replicate {A = ℕ} upstreams 0;
    } in
    record {
      total = counts (λ s. s.total_queries) is_query (λ s e. ground arith) es s refl;
      blocked = counts (λ s. s.blocked_queries) is_blocked (λ s e. ground arith) es s refl;
      hits = counts (λ s. s.cache_hits) is_cache_hit (λ s e. ground arith) es s refl;
      by_client = λ ip.
          counts (λ s. counter ip s.client_queries) (is_client_query ip) (apply-client_query ip) es
            s (ap (λ o. get_or o 0) (HashMap.get-nil ip));
      client_blocks = λ ip.
          counts (λ s. counter ip s.client_blocks) (is_client_block ip) (apply-client_block ip) es s
            (ap (λ o. get_or o 0) (HashMap.get-nil ip));
      by_domain = λ d.
          counts (λ s. counter d s.domain_queries) (is_domain_query d) (apply-domain_query d) es s
            (ap (λ o. get_or o 0) (HashMap.get-nil d));
      domain_blocks = λ d.
          counts (λ s. counter d s.domain_blocks) (is_domain_block d) (apply-domain_block d) es s
            (ap (λ o. get_or o 0) (HashMap.get-nil d));
      source_width = (apply_all-IsWide es s wide).by_source;
      by_source = λ id range.
          counts_at (λ s. counter_at s.blocked_queries_by_source_id id) (is_blocked_by id)
            (apply-source id range) es s wide (counter_at-replicate sources id);
      upstream_width = ((apply_all-IsWide es s wide).replies, (apply_all-IsWide es s wide).times);
      replies = λ i range.
          counts_at (λ s. counter_at s.upstream_count i) (is_latency_of i) (apply-replies i range)
            es s wide (counter_at-replicate upstreams i);
      reply_times = λ i range.
          adds_at (λ s. counter_at s.upstream_total_ms i) i (apply-times i range) es s wide
            (counter_at-replicate upstreams i);
    }
