-- ===== src/Stats/Events.antt =====
-- The calls of the other components on src/stats.rs, and what each counter is to count of them.
use ad_nope.Prelude.{
  ℕ, zero, suc, ◌+◌, Bool, true, false, String, List, [], ◌∷◌, Eq, ◌==◌, get_or, nat_eq, string_eq,
  if◌then◌else◌,
}
use ad_nope.Prelude.HashMap
use ad_nope.Prelude.HashMap.{HashMap}
use ad_nope.Net.{IpAddr, ip_eq}
use ad_nope.Stats.{
  StatsCollector, inc_queries, inc_cache_hit, inc_blocked, inc_blocked_by_source, inc_client_query,
  inc_client_block, inc_domain_query, inc_domain_block, record_upstream_latency,
}

-- The calls of the other components, in the order in which they take effect.
pub data Event : Type 0 where
  query cache_hit blocked : Event
  blocked_by : ℕ → Event
  client_query client_block : IpAddr → Event
  domain_query domain_block : String → Event
  latency : ℕ → ℕ → Event

unfoldable pub apply : StatsCollector → Event → StatsCollector
apply s query = inc_queries s
apply s cache_hit = inc_cache_hit s
apply s blocked = inc_blocked s
apply s (blocked_by id) = inc_blocked_by_source s id
apply s (client_query ip) = inc_client_query s ip
apply s (client_block ip) = inc_client_block s ip
apply s (domain_query d) = inc_domain_query s d
apply s (domain_block d) = inc_domain_block s d
apply s (latency idx ms) = record_upstream_latency s idx ms

unfoldable pub apply_all : StatsCollector → List Event → StatsCollector
apply_all s [] = s
apply_all s (e ∷ es) = apply_all (apply s e) es

-- How many of the events are of a kind.
abbrev pub occurrences : (Event → Bool) → List Event → ℕ
occurrences p [] = 0
occurrences p (e ∷ es) = (if p e then 1 else 0) + occurrences p es

abbrev pub is_query : Event → Bool
is_query query = true
is_query _ = false

abbrev pub is_cache_hit : Event → Bool
is_cache_hit cache_hit = true
is_cache_hit _ = false

abbrev pub is_blocked : Event → Bool
is_blocked blocked = true
is_blocked (blocked_by _) = true
is_blocked _ = false

abbrev pub is_blocked_by : ℕ → Event → Bool
is_blocked_by id (blocked_by k) = k == id
is_blocked_by id _ = false

abbrev pub is_client_query : IpAddr → Event → Bool
is_client_query ip (client_query k) = k == ip
is_client_query ip _ = false

abbrev pub is_client_block : IpAddr → Event → Bool
is_client_block ip (client_block k) = k == ip
is_client_block ip _ = false

abbrev pub is_domain_query : String → Event → Bool
is_domain_query d (domain_query k) = k == d
is_domain_query d _ = false

abbrev pub is_domain_block : String → Event → Bool
is_domain_block d (domain_block k) = k == d
is_domain_block d _ = false

abbrev pub is_latency_of : ℕ → Event → Bool
is_latency_of i (latency k ms) = k == i
is_latency_of i _ = false

-- The milliseconds that the events report for an upstream.
abbrev pub milliseconds_of : ℕ → Event → ℕ
milliseconds_of i (latency k ms) = if k == i then ms else 0
milliseconds_of i _ = 0

abbrev pub milliseconds : ℕ → List Event → ℕ
milliseconds i [] = 0
milliseconds i (e ∷ es) = milliseconds_of i e + milliseconds i es

-- The value of a list's counter; a position outside the list counts 0.
abbrev pub counter_at : List ℕ → ℕ → ℕ
counter_at [] i = 0
counter_at (x ∷ xs) zero = x
counter_at (x ∷ xs) (suc i) = counter_at xs i

-- The value of a map's counter; a key without an entry counts 0.
abbrev pub counter {ℓ} : {K : Type ℓ} ⦃e : Eq K⦄ → K → HashMap K ℕ → ℕ
counter k m = get_or (HashMap.get k m) 0

unfoldable pub methods : Unit {0}
unfolding apply inc_queries inc_cache_hit inc_blocked inc_blocked_by_source inc_client_query
    inc_client_block inc_domain_query inc_domain_block record_upstream_latency
methods = tt
