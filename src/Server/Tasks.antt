-- ===== src/Server/Tasks.antt =====
-- `handle_request` of src/server/dns_request_handler.rs as a task: between two accesses to the state
-- that the handlers share, other tasks may run.
pub mod Ends
pub mod Alone
pub mod Sending
pub mod System
pub mod Delivery
pub mod Progress
pub mod Turns
pub mod Answered
pub mod Filtered
pub mod Logging
use ad_nope.Prelude.{
  ℕ, Bool, true, false, ◌&&◌, List, [], ◌∷◌, ◌++◌, String, Option, none, some, Outcome, returns,
  panics, Result, ok, err, ◌==◌, string_eq, if◌then◌else◌,
}
use ad_nope.Prelude.HashMap
use ad_nope.Prelude.Text.{concat}
use ad_nope.Dns.{aaaa, Record, type_eq}
use ad_nope.Engine.State.{is_blocking_active}
use ad_nope.Stats.{inc_cache_hit}
use ad_nope.Resolver.{Answer}
use ad_nope.Server.Interfaces.{DnsResolver, CacheLibrary, NameParser}
use ad_nope.Server.Cache.{
  ResponseCode, no_error, nx_domain, serv_fail, Response, Server, check_cache, cache_answer,
}
use ad_nope.Server.Query.{
  QueryContext, LogContext, Request, Clock, Handler, get_query_info, blocked_record, answers_query,
  local_log, blocked_log, cached_log, forwarded_log, ipv6_log,
}
use ad_nope.Server.Handler.{count_query, count_domain, check_blocklist}
use ad_nope.Server.Handler.Responses.{log_query, count_blocked}

-- Where a task stands: before anything, with the query of the request, before the test of the pause,
-- before the blocklist, before the cache, before the resolver, before the insertion of the answer, with
-- a response to send, with an entry to log, at its end, or ended by a panic.
pub data Pc : Type 0 where
  received : Pc
  named unanswered active unblocked missed : QueryContext → Pc
  resolved : QueryContext → Result Answer → Pc
  answering : QueryContext → ResponseCode → List Record → LogContext → Pc
  sent : QueryContext → LogContext → Response → Pc
  done : Response → Pc
  panicked : Pc

module _ (dns : DnsResolver) (moka : CacheLibrary) (names : NameParser) where
  module _ (h : Handler) (clock : Clock) (request : Request) where
    abbrev pub after_info : Outcome QueryContext → Server dns moka → Pc × Server dns moka
    after_info panics s = (panicked, s)
    after_info (returns query) s = (named query, count_domain dns moka names query s)

    -- The records of the configuration that answer the query.
    abbrev pub after_local : QueryContext → Option (List Record) → Pc
    after_local query none = unanswered query
    after_local query (some records) =
        if answers_query query.qtype records
        then answering query no_error records local_log
        else unanswered query

    abbrev pub after_pause : QueryContext → Outcome Bool → Pc
    after_pause query panics = panicked
    after_pause query (returns false) = unblocked query
    after_pause query (returns true) = active query

    abbrev pub blocked_with : QueryContext → LogContext → Option Record → Pc
    blocked_with query log (some r) = answering query no_error (r ∷ []) log
    blocked_with query log none = answering query nx_domain [] log

    abbrev pub after_blocklist : QueryContext → Option ℕ → Server dns moka → Pc × Server dns moka
    after_blocklist query none s = (unblocked query, s)
    after_blocklist query (some source_id) s = (
      blocked_with query (blocked_log source_id) (blocked_record names query),
      count_blocked dns moka names request query source_id s,
    )

    abbrev pub after_cache :
        QueryContext
        → Option (List Record × Bool × Option ℕ)
        → Server dns moka
        → Pc × Server dns moka
    after_cache query none s = (missed query, s)
    after_cache query (some (records, is_stale, ttl)) s = (
      answering query no_error records (cached_log ttl),
      record s {
        stats = inc_cache_hit s.stats;
        spawned = if is_stale then s.spawned ++ ((query.name, query.qtype) ∷ []) else s.spawned;
      },
    )

    abbrev pub after_resolver : QueryContext → Outcome (Result Answer) → Pc
    after_resolver query panics = panicked
    after_resolver query (returns r) = resolved query r

    abbrev pub answered_with : QueryContext → Outcome (Result Answer) → Pc
    answered_with query panics = panicked
    answered_with query (returns (ok (records, upstream))) =
        answering query no_error records (forwarded_log upstream)
    answered_with query (returns (err e)) =
        answering query serv_fail [] (forwarded_log (concat "error: " e))

    -- `send_response(response).await.expect(..)`
    abbrev pub sending :
        Bool → QueryContext → LogContext → Response → Server dns moka → Pc × Server dns moka
    sending true query log response s =
        (sent query log response, record s { sent = s.sent ++ (response ∷ []) })
    sending false query log response s = (panicked, s)

    -- One step of the task; at its end it stays.
    unfoldable pub advance : Pc → Server dns moka → Pc × Server dns moka
    unfolding count_query get_query_info
    advance received s =
        after_info (get_query_info clock request) (count_query dns moka names request s)
    advance (named query) s = (
      if h.config.disable_ipv6 && query.qtype == aaaa
          then answering query no_error [] ipv6_log
          else after_local query (HashMap.get query.name h.local_records),
      s,
    )
    advance (unanswered query) s =
        (after_pause query (is_blocking_active s.app_state clock.pause_check), s)
    advance (active query) s = after_blocklist query (check_blocklist dns moka names query.name s) s
    advance (unblocked query) s =
        let (found, s') = check_cache dns moka clock.cache_check query.name query.qtype s in
        after_cache query found s'
    advance (missed query) s =
        let (o, state, stats) = dns.resolve s.resolver s.stats query.name query.qtype in
        (after_resolver query o, record s { resolver = state; stats = stats })
    advance (resolved query r) s =
        let (o, s') = cache_answer dns moka h.config clock.resolved (query.name, query.qtype) r s in
        (answered_with query o, s')
    advance (answering query code records log) s =
        sending request.deliverable query log
          (record { code = code; authoritative = false; answers = records }) s
    advance (sent query log info) s =
        (done info, log_query dns moka names h clock request query log s)
    advance (done info) s = (done info, s)
    advance panicked s = (panicked, s)
