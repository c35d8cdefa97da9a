-- ===== src/Server/Accounts.antt =====
-- How the counters of src/stats.rs go with what src/server/dns_request_handler.rs logs.
use ad_nope.Prelude.{◌≡◌, ap, ◌∙◌, Bool, true, false, ◌&&◌, Option, none, some, if◌then◌else◌}
use ad_nope.Prelude.Words.{add_u64}
use ad_nope.Logger.Outcomes.{is_blocked, is_cached}
use ad_nope.Stats.{StatsCollector}
use ad_nope.Server.Query.{LogContext}

-- The counters of blocked queries and of hits are as they were.
abbrev pub Quiet : StatsCollector → StatsCollector → Type 0
Quiet s t = (t.blocked_queries ≡ s.blocked_queries) × (t.cache_hits ≡ s.cache_hits)

abbrev has_source {ℓ} : {A : Type ℓ} → Option A → Bool
has_source none = false
has_source (some id) = true

-- A blocked query is counted if its entry has a source, and a hit if its entry is one.
abbrev pub Accounted : LogContext → StatsCollector → StatsCollector → Type 0
Accounted log s t =
    (t.blocked_queries ≡ (
      if is_blocked log.action && has_source log.source_id
      then add_u64 s.blocked_queries 1
      else s.blocked_queries))
    × (t.cache_hits ≡ (if is_cached log.action then add_u64 s.cache_hits 1 else s.cache_hits))

pub Accounted-Quiet :
    (log : LogContext) (r s t : StatsCollector) → Quiet r s → Accounted log s t → Accounted log r t
Accounted-Quiet log r s t (p, q) (b, c) = (
  b ∙ ap (λ n. if is_blocked log.action && has_source log.source_id then add_u64 n 1 else n) p,
  c ∙ ap (λ n. if is_cached log.action then add_u64 n 1 else n) q,
)
