-- ===== src/Server/Filter.antt =====
-- With `disable_ipv6`, src/server/dns_request_handler.rs never sends an AAAA record: the records
-- that are kept, and what is preserved.
pub mod Cached
pub mod Handlers
pub mod Decided
pub mod History
use mathlib.Core.Path.{subst}
use ad_nope.Prelude.{
  ℕ, ◌≡◌, ◌⊎◌, refl, ap, sym, ◌∙◌, Bool, true, false, ◌&&◌, String, List, [], ◌∷◌, ◌++◌, Option,
  none, some, inl, inr, get_or, ltb, returns, panics, Outcome, Result, ok, err, arith, All,
  Bool-cases, Option-cases, if◌then◌else◌, ◌==◌, ==_iff, string_eq, pair_eq,
}
use ad_nope.Prelude.Text.{concat}
use ad_nope.Prelude.HashMap
use ad_nope.Prelude.HashMap.{HashMap}
use ad_nope.Config.{Config}
use ad_nope.Net.{IpAddr}
use ad_nope.Dns.{
  RecordType, a, aaaa, other, RData, address4, address6, opaque, Record, record_type, type_eq,
}
use ad_nope.Engine.State.{AppState, is_blocking_active}
use ad_nope.Stats.{StatsCollector, inc_cache_hit}
use ad_nope.Logger
use ad_nope.Logger.{Channel}
use ad_nope.Resolver.{Answer}
use ad_nope.Server.Action.{Action, resume_with, ◌>>=◌, pure}
use ad_nope.Server.Interfaces.{DnsResolver, CacheLibrary, NameParser, Key, Entry}
use ad_nope.Server.Cache.{
  ResponseCode, no_error, nx_domain, serv_fail, Response, Server, without_aaaa, served_records,
  entry_at, freshness, resolve_and_cache, check_cache, cache_answer, cache_outcome,
}
use ad_nope.Server.Query.{
  QueryContext, LogContext, Request, Clock, Handler, new_handler, local_records_from, add_local,
  local_entry, get_query_info, blocked_data, blocked_record, answers_query, forwarded_log,
  local_log, blocked_log, cached_log, ipv6_log,
}
use ad_nope.Server.Handler.{
  check_blocklist, handled, serve_local, handle_local_records, serve_listed, handle_listed,
  handle_blocked_request, serve_cached, after_lookup, handle_cached_response, serve_answer,
  resolve_and_serve, ◌otherwise◌, or_return, serve_query, count_query, count_domain, handle_request,
  refresh_stale,
}
use ad_nope.Server.Handler.Responses.{
  send_response, log_query, respond, serve_records, count_blocked, respond_blocked, serve_blocked,
}

-- No record is of type AAAA.
abbrev pub HasNoAaaa : List Record → Type 0
HasNoAaaa = All (λ r. (record_type r == aaaa) ≡ false)

pub without_aaaa-HasNoAaaa : (rs : List Record) → HasNoAaaa (without_aaaa rs)
unfolding without_aaaa
without_aaaa-HasNoAaaa [] = tt
without_aaaa-HasNoAaaa (r ∷ rs) = elim (Bool-cases (record_type r == aaaa)) [
  | inl e ↦ subst HasNoAaaa (sym (dropped e)) (without_aaaa-HasNoAaaa rs)
  | inr e ↦ subst HasNoAaaa (sym (kept e)) (e, without_aaaa-HasNoAaaa rs)
]
  where
    dropped : (record_type r == aaaa) ≡ true → without_aaaa (r ∷ rs) ≡ without_aaaa rs
    dropped e = ap (λ b. if b then without_aaaa rs else r ∷ without_aaaa rs) e

    kept : (record_type r == aaaa) ≡ false → without_aaaa (r ∷ rs) ≡ r ∷ without_aaaa rs
    kept e = ap (λ b. if b then without_aaaa rs else r ∷ without_aaaa rs) e

abbrev pub IsHeld : Option Entry → Type 0
IsHeld none = Unit
IsHeld (some e) = HasNoAaaa e.records

-- At most one record, as `new` makes the local records.
abbrev pub IsSingle : Option (List Record) → Type 0
IsSingle none = Unit
IsSingle (some []) = Unit
IsSingle (some (r ∷ rs)) = rs ≡ []

if-IsSingle :
    (b : Bool) (o p : Option (List Record))
    → IsSingle o
    → IsSingle p
    → IsSingle (if b then o else p)
if-IsSingle true o p h i = h
if-IsSingle false o p h i = i

add_local-IsSingle :
    (ttl : ℕ) (domain : String) (ip : IpAddr) (o : Option String) (m : HashMap String (List Record))
    (k : String)
    → IsSingle (HashMap.get k m)
    → IsSingle (HashMap.get k (add_local domain (local_entry ttl ip o) m))
add_local-IsSingle ttl domain ip none m k h = h
add_local-IsSingle ttl domain ip (some name) m k h =
    let rs = local_entry ttl ip (some name) in
    subst IsSingle (sym (HashMap.get-insert domain k rs m))
      (if-IsSingle (domain == k) (some rs) (HashMap.get k m) refl h)

pub local_records_from-IsSingle :
    (names : NameParser) (ttl : ℕ) (configured : HashMap String IpAddr)
    (m : HashMap String (List Record)) (k : String)
    → IsSingle (HashMap.get k m)
    → IsSingle (HashMap.get k (local_records_from names ttl configured m))
unfolding local_records_from
local_records_from-IsSingle names ttl [] m k h = h
local_records_from-IsSingle names ttl ((domain, ip) ∷ rest) m k h =
    local_records_from-IsSingle names ttl rest _ k
      (add_local-IsSingle ttl domain ip (names.from_str domain) m k h)

-- A local answer is of the type of the query.
pub answers_query-HasNoAaaa :
    (qtype : RecordType) (rs : List Record)
    → (qtype == aaaa) ≡ false
    → IsSingle (some rs)
    → answers_query qtype rs ≡ true
    → HasNoAaaa rs
unfolding answers_query
answers_query-HasNoAaaa qtype [] ne single yes_ = tt
answers_query-HasNoAaaa qtype (r ∷ rs) ne single yes_ = (
  ap (λ t. t == aaaa) ((==_iff (record_type r) qtype).0 yes_) ∙ ne,
  subst HasNoAaaa (sym single) tt,
)

HasNoAaaa-single :
    (t : RecordType) (r : Record) → record_type r ≡ t → (t == aaaa) ≡ false → HasNoAaaa (r ∷ [])
HasNoAaaa-single t r e ne = (ap (λ u. u == aaaa) e ∙ ne, tt)

pub IsClean-append :
    (rs : List Response) (r : Response)
    → All (λ x. HasNoAaaa x.answers) rs
    → HasNoAaaa r.answers
    → All (λ x. HasNoAaaa x.answers) (rs ++ (r ∷ []))
IsClean-append [] r h e = (e, tt)
IsClean-append (x ∷ rs) r h e = (h.0, IsClean-append rs r h.1 e)

abbrev pub blocked_answer : NameParser → QueryContext → Option RData → Option Record
blocked_answer names query o = elim o [
  | none ↦ none
  | some rdata ↦ some (record {
    name = get_or (names.from_str query.name) names.default_name;
    ttl = 60;
    rdata = rdata;
  })
]

pub not-blocked6 :
    (t : RecordType) (n : ℕ) → some (address6 n) ≡ blocked_data t → (t == aaaa) ≡ false → ⊥
not-blocked6 a n e ne = ground arith
not-blocked6 aaaa n e ne = ground arith
not-blocked6 (other c) n e ne = ground arith
