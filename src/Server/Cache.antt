-- ===== src/Server/Cache.antt =====
-- `resolve_and_cache` and `check_cache` of src/server/dns_request_handler.rs, on the state of the
-- server. Instants are numbers of nanoseconds.
use ad_nope.Prelude.{
  ℕ, ◌+◌, ◌-◌, ◌/◌, max, min, Bool, true, false, List, [], ◌∷◌, String, Option, none, some, Outcome,
  returns, panics, Result, ok, err, get_or, ltb, ◌==◌, if◌then◌else◌,
}
use mathlib.Core.Option
use ad_nope.Config.{Config}
use ad_nope.Dns.{RecordType, Record, aaaa, record_type, type_eq}
use ad_nope.Engine.State.{AppState, from_secs, nanos_per_sec}
use ad_nope.Logger.{Channel}
use ad_nope.Resolver.{Answer}
use ad_nope.Stats.{StatsCollector}
use ad_nope.Server.Interfaces.{DnsResolver, CacheLibrary, Key, Entry}

pub data ResponseCode : Type 0 where
  no_error nx_domain serv_fail : ResponseCode

-- The response that is built for a request: its header's code and flag, and the answers.
pub record Response : Type 0 where
  pub code : ResponseCode
  pub authoritative : Bool
  pub answers : List Record

-- `records.iter().map(|r| r.ttl()).min()`
unfoldable pub min_ttl_of : List Record → Option ℕ
min_ttl_of [] = none
min_ttl_of (r ∷ rs) = some (get_or (Option.map (λ t. min r.ttl t) (min_ttl_of rs)) r.ttl)

-- `records.retain(|r| r.record_type() != RecordType::AAAA)`
unfoldable pub without_aaaa : List Record → List Record
without_aaaa [] = []
without_aaaa (r ∷ rs) =
    let rest = without_aaaa rs in if record_type r == aaaa then rest else r ∷ rest

unfoldable pub served_records : Config → List Record → List Record
unfolding without_aaaa
served_records config records = if config.disable_ipv6 then without_aaaa records else records

-- The seconds for which records are kept: the least of their times to live, at least the
-- configured minimum; the minimum alone where there is no record.
unfoldable pub effective_ttl : Config → List Record → ℕ
unfolding min_ttl_of
effective_ttl config [] = config.cache.min_ttl
effective_ttl config (r ∷ rs) = max (get_or (min_ttl_of (r ∷ rs)) 300) config.cache.min_ttl

-- The entry that is cached at the instant `now`.
unfoldable pub entry_at : Config → ℕ → List Record → Entry
unfolding effective_ttl
entry_at config now records =
    let valid_until = now + from_secs (effective_ttl config records) in
    record {
      records = records;
      valid_until = valid_until;
      stale_until = valid_until + from_secs config.cache.grace_period_sec;
    }

-- The rest of `check_cache`, for what the cache holds.
unfoldable pub freshness : ℕ → Entry → Option (List Record × Bool × Option ℕ)
freshness now e =
    let ttl =
      if ltb now e.valid_until then some ((e.valid_until - now) / nanos_per_sec) else some 0 in
    if ltb now e.valid_until
    then some (e.records, false, ttl)
    else if ltb now e.stale_until
    then some (e.records, true, ttl)
    else none

module _ (dns : DnsResolver) (moka : CacheLibrary) where
  -- What the handler shares between tasks: the statistics, the logger's channels, the pause state,
  -- the matcher, the resolver, the cache, the background tasks that were spawned, and the responses
  -- that were sent.
  pub record Server : Type 0 where
    pub stats : StatsCollector
    pub logger : List Channel
    pub app_state : AppState
    pub blocklist : String → Option ℕ
    pub resolver : dns.State
    pub cache : moka.Store
    pub spawned : List Key
    pub sent : List Response

  -- `Instant + Duration` panics past the last instant of the platform: at the end of the validity, or
  -- at the end of the grace, which is no earlier.
  unfoldable pub cache_answer :
      Config → ℕ → Key → Result Answer → Server → Outcome (Result Answer) × Server
  unfolding entry_at served_records
  cache_answer config now key (ok (records, upstream)) s =
      let kept = served_records config records in
      let entry = entry_at config now kept in
      if ltb moka.max_instant entry.stale_until
      then (panics, s)
      else (returns (ok (kept, upstream)), record s { cache = moka.insert s.cache key entry })
  cache_answer config now key (err e) s = (returns (err e), s)

  abbrev pub cache_outcome :
      Config → ℕ → Key → Outcome (Result Answer) → Server → Outcome (Result Answer) × Server
  cache_outcome config now key panics s = (panics, s)
  cache_outcome config now key (returns r) s = cache_answer config now key r s

  -- `now` is the instant at which the answer is cached.
  unfoldable pub resolve_and_cache :
      Config → ℕ → String → RecordType → Server → Outcome (Result Answer) × Server
  unfolding cache_answer
  resolve_and_cache config now name qtype s =
      let (o, state, stats) = dns.resolve s.resolver s.stats name qtype in
      cache_outcome config now (name, qtype) o (record s { resolver = state; stats = stats })

  unfoldable pub check_cache :
      ℕ → String → RecordType → Server → Option (List Record × Bool × Option ℕ) × Server
  unfolding freshness
  check_cache now name qtype s =
      let (found, store) = moka.get s.cache (name, qtype) in
      (elim found [ none ↦ none | some e ↦ freshness now e ], record s { cache = store })
