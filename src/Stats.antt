-- ===== src/Stats.antt =====
-- src/stats.rs: `StatsCollector`, the counters and their snapshot. A method returns the new
-- collector. Counters are `u64` and wrap around.
pub mod Events
pub mod Positions
pub mod Counters
pub mod SourceCounts
pub mod TopK
pub mod Dump
use ad_nope.Prelude.{
  ℕ, ◌+◌, ◌-◌, ◌%◌, String, List, [], map, ltb, leb, Bool, take, modify, replicate, string_eq, Eq,
  if◌then◌else◌,
}
use ad_nope.Prelude.HashMap
use ad_nope.Prelude.HashMap.{HashMap}
use ad_nope.Prelude.Sort.{sort}
use ad_nope.Prelude.Words.{add_u64, u64_mod}
use ad_nope.Net.{IpAddr, ip_eq}

pub record TopItem : Type 0 where
  pub name : String
  pub count : ℕ

pub record StatsCollector : Type 0 where
  pub total_queries : ℕ
  pub blocked_queries : ℕ
  pub cache_hits : ℕ
  pub client_queries : HashMap IpAddr ℕ
  pub client_blocks : HashMap IpAddr ℕ
  pub domain_queries : HashMap String ℕ
  pub domain_blocks : HashMap String ℕ
  pub blocked_queries_by_source_id : List ℕ
  pub upstream_total_ms : List ℕ
  pub upstream_count : List ℕ
  pub upstream_names : List String
  pub blocklist_names : List String
  pub started_at : ℕ
  pub log_interval : ℕ

abbrev pub sources : ℕ
sources = 256

abbrev pub upstreams : ℕ
upstreams = 16

-- `started_at` is the instant of the call.
unfoldable pub new : ℕ → ℕ → List String → List String → StatsCollector
new now log_interval_sec upstream_names blocklist_names = record {
  total_queries = 0;
  blocked_queries = 0;
  cache_hits = 0;
  client_queries = [];
  client_blocks = [];
  domain_queries = [];
  domain_blocks = [];
  blocked_queries_by_source_id = replicate sources 0;
  upstream_total_ms = replicate upstreams 0;
  upstream_count = replicate upstreams 0;
  upstream_names = upstream_names;
  blocklist_names = blocklist_names;
  started_at = now;
  log_interval = log_interval_sec;
}

unfoldable pub inc_queries : StatsCollector → StatsCollector
inc_queries s = record s { total_queries = add_u64 s.total_queries 1 }

unfoldable pub inc_blocked : StatsCollector → StatsCollector
inc_blocked s = record s { blocked_queries = add_u64 s.blocked_queries 1 }

unfoldable pub inc_cache_hit : StatsCollector → StatsCollector
inc_cache_hit s = record s { cache_hits = add_u64 s.cache_hits 1 }

unfoldable pub inc_blocked_by_source : StatsCollector → ℕ → StatsCollector
unfolding inc_blocked
inc_blocked_by_source s source_id =
    let t = inc_blocked s in
    record t {
      blocked_queries_by_source_id =
          modify t.blocked_queries_by_source_id source_id (λ c. add_u64 c 1);
    }

unfoldable pub inc_client_query : StatsCollector → IpAddr → StatsCollector
inc_client_query s client = record s { client_queries = HashMap.bump client s.client_queries }

unfoldable pub inc_client_block : StatsCollector → IpAddr → StatsCollector
inc_client_block s client = record s { client_blocks = HashMap.bump client s.client_blocks }

unfoldable pub inc_domain_query : StatsCollector → String → StatsCollector
inc_domain_query s domain = record s { domain_queries = HashMap.bump domain s.domain_queries }

unfoldable pub inc_domain_block : StatsCollector → String → StatsCollector
inc_domain_block s domain = record s { domain_blocks = HashMap.bump domain s.domain_blocks }

unfoldable pub record_upstream_latency : StatsCollector → ℕ → ℕ → StatsCollector
record_upstream_latency s upstream_idx ms =
    if ltb upstream_idx upstreams
    then record s {
      upstream_total_ms = modify s.upstream_total_ms upstream_idx (λ c. add_u64 c ms);
      upstream_count = modify s.upstream_count upstream_idx (λ c. add_u64 c 1);
    }
    else s

-- Descending by count: the order of the closure that `sort_by` is given.
abbrev pub more_first : TopItem → TopItem → Bool
more_first x y = leb y.count x.count

-- `to_string` is that of the key's type. The map's entries come in the order of its iteration.
unfoldable pub get_top_k {ℓ} : {K : Type ℓ} → (K → String) → HashMap K ℕ → ℕ → List TopItem
get_top_k to_string entries k =
    take k (sort more_first (map (λ e. record { name = to_string e.0; count = e.1 }) entries))

pub record StatsSnapshot : Type 0 where
  pub total_queries : ℕ
  pub blocked_queries : ℕ
  pub cache_hits : ℕ
  pub top_clients : List TopItem
  pub top_blocked_clients : List TopItem
  pub top_domains : List TopItem
  pub top_blocked_domains : List TopItem
  pub started_at : ℕ
  pub updated_at : ℕ

-- The system clock's seconds, at the two places where it is read, and the seconds since the start.
unfoldable pub get_snapshot : (IpAddr → String) → StatsCollector → ℕ → ℕ → ℕ → StatsSnapshot
unfolding get_top_k
get_snapshot show_ip s clock elapsed clock' = record {
  total_queries = s.total_queries;
  blocked_queries = s.blocked_queries;
  cache_hits = s.cache_hits;
  top_clients = get_top_k show_ip s.client_queries 5;
  top_blocked_clients = get_top_k show_ip s.client_blocks 5;
  top_domains = get_top_k (λ d. d) s.domain_queries 5;
  top_blocked_domains = get_top_k (λ d. d) s.domain_blocks 5;
  started_at = (clock + u64_mod - elapsed) % u64_mod;
  updated_at = clock';
}
