-- ===== src/Server/Replies.antt =====
-- One response and one log entry for each request that `handle_request` of
-- src/server/dns_request_handler.rs serves.
pub mod Handlers
use mathlib.Core.Path.{subst}
use ad_nope.Prelude.{
  ◌≤◌, ℕ, ◌≡◌, ◌⊎◌, refl, ap, sym, ◌∙◌, Bool, true, false, ◌&&◌, String, List, [], ◌∷◌, ◌++◌,
  Option, none, some, inl, inr, returns, Outcome, Result, ok, err, arith, if◌then◌else◌, ◌==◌,
  string_eq,
}
use ad_nope.Prelude.HashMap
use ad_nope.Prelude.Text.{concat}
use ad_nope.Prelude.Case.{make_ascii_lowercase}
use ad_nope.Dns.{RecordType, Record, aaaa, type_eq}
use ad_nope.Engine.State.{is_blocking_active, unwrap, active_at}
use ad_nope.Logger
use ad_nope.Logger.{Channel}
use ad_nope.Stats.{
  StatsCollector, inc_cache_hit, inc_blocked, inc_blocked_by_source, inc_client_block,
  inc_domain_block, inc_queries, inc_client_query, inc_domain_query,
}
use ad_nope.Server.Accounts.{Quiet, Accounted, Accounted-Quiet}
use ad_nope.Resolver.{Answer}
use ad_nope.Server.Action.{Action, resume_with}
use ad_nope.Server.Interfaces.{DnsResolver, CacheLibrary, NameParser, Key}
use ad_nope.Server.Cache.{
  ResponseCode, no_error, nx_domain, serv_fail, Response, Server, resolve_and_cache, check_cache,
  cache_answer, cache_outcome,
}
use ad_nope.Server.Caching.{cache_answer-IsStored, cache_answer-returns}
use ad_nope.Server.Expiry.{HasU32, latest_end, HasU32-Fits}
use ad_nope.Server.Query.{
  without_dot, local_log, blocked_log, cached_log, forwarded_log, ipv6_log, QueryContext,
  LogContext, Request, Clock, Handler, get_query_info, log_entry, blocked_record, answers_query,
}
use ad_nope.Server.Handler.{
  serve_local, serve_listed, check_blocklist, handled, handle_local_records, handle_listed,
  handle_blocked_request, serve_cached, after_lookup, handle_cached_response, serve_answer,
  resolve_and_serve, ◌otherwise◌, serve_query, count_query, count_domain, handle_request,
}
use ad_nope.Server.Handler.Responses.{
  respond_blocked, send_response, log_query, respond, serve_records, count_blocked, serve_blocked,
}
use ad_nope.Server.Replies.Handlers.{
  Same, Replied, Tried, respond-Replied, serve_local-Tried, handle_blocked_request-Tried,
  handle_cached_response-Tried, serve_answer-Replied, Replied-Same, otherwise-Replied,
}

module _ (dns : DnsResolver) (moka : CacheLibrary) (names : NameParser) where
  module _ (h : Handler) (clock : Clock) (request : Request) (query : QueryContext)
      (deliverable : request.deliverable ≡ true) where
    -- The resolver returns; it may return an error.
    module _
        (responsive : (state : dns.State) (stats : StatsCollector) (name : String)
            (qtype : RecordType)
          → (r : Result Answer) × ((dns.resolve state stats name qtype).0 ≡ returns r)
            × Quiet stats (dns.resolve state stats name qtype).2
            × HasU32 r)
        (room : latest_end h.config clock.resolved ≤ moka.max_instant) where
      cache_answer-Same :
          (r : Result Answer) (key : Key) (s : Server dns moka)
          → Same dns moka names s (cache_answer dns moka h.config clock.resolved key r s).1
      cache_answer-Same r key s =
          let stored = (cache_answer-IsStored dns moka h.config clock.resolved key r s).1 in
          (
            ap (λ (t : Server dns moka). t.sent) stored,
            ap (λ (t : Server dns moka). t.logger) stored,
            ap (λ (t : Server dns moka). t.app_state) stored,
            (
              ap (λ (t : Server dns moka). t.stats.blocked_queries) stored,
              ap (λ (t : Server dns moka). t.stats.cache_hits) stored,
            ),
          )

      resolve_and_serve-Replied :
          (s : Server dns moka)
          → Replied dns moka names h clock request query
              (λ r. r)
              s
              (resolve_and_serve dns moka names h clock request query s)
      unfolding resolve_and_serve resolve_and_cache
      resolve_and_serve-Replied s =
          let (r, e, quiet, words) = responsive s.resolver s.stats query.name query.qtype in
          let answer = dns.resolve s.resolver s.stats query.name query.qtype in
          let key : Key = (query.name, query.qtype) in
          let s' : Server dns moka = record s { resolver = answer.1; stats = answer.2 } in
          let t = cache_answer dns moka h.config clock.resolved key r s' in
          let (r', returned) =
            cache_answer-returns dns moka h.config clock.resolved key r s'
              (HasU32-Fits dns moka h.config clock.resolved r words room) in
          let (sent_same, logger_same, state_same, kept) = cache_answer-Same r key s' in
          let same : Same dns moka names s t.1 =
            (sent_same, logger_same, state_same, (kept.0 ∙ quiet.0, kept.1 ∙ quiet.1)) in
          subst
            (λ o.
              Replied dns moka names h clock request query (λ r. r) s
                (resume_with (cache_outcome dns moka h.config clock.resolved key o s').0
                  (cache_outcome dns moka h.config clock.resolved key o s').1
                  (serve_answer dns moka names h clock request query)))
            (sym e)
            (subst
              (λ o.
                Replied dns moka names h clock request query (λ r. r) s
                  (resume_with o t.1 (serve_answer dns moka names h clock request query)))
              (sym returned)
              (Replied-Same dns moka names h clock request query deliverable s t.1
                (serve_answer dns moka names h clock request query r' t.1) same
                (serve_answer-Replied dns moka names h clock request query deliverable r' t.1)))

      if-Replied :
          (b : Bool) (m n : Action (Server dns moka) Response) (s : Server dns moka)
          → Replied dns moka names h clock request query (λ r. r) s (m s)
          → Replied dns moka names h clock request query (λ r. r) s (n s)
          → Replied dns moka names h clock request query (λ r. r) s ((if b then m else n) s)
      if-Replied true m n s p q = p
      if-Replied false m n s p q = q

      serve_query-Replied :
          (s : Server dns moka)
          → s.app_state.poisoned ≡ false
          → Replied dns moka names h clock request query
              (λ r. r)
              s
              (serve_query dns moka names h clock request query s)
      unfolding serve_query serve_records handle_local_records
      serve_query-Replied s safe =
          if-Replied (h.config.disable_ipv6 && query.qtype == aaaa)
            (serve_records dns moka names h clock request [] query ipv6_log) _ s
            (respond-Replied dns moka names h clock request query deliverable no_error [] ipv6_log s
              s refl refl (refl, refl))
            (otherwise-Replied dns moka names h clock request query deliverable
              (handle_local_records dns moka names h clock request query) _ s
              (serve_local-Tried dns moka names h clock request query deliverable
                (HashMap.get query.name h.local_records) s)
              (λ t (_, _, state_same, _).
                otherwise-Replied dns moka names h clock request query deliverable
                  (handle_blocked_request dns moka names h clock request query) _ t
                  (handle_blocked_request-Tried dns moka names h clock request query deliverable t
                    (ap (λ a. a.poisoned) state_same ∙ safe))
                  (λ u _.
                    otherwise-Replied dns moka names h clock request query deliverable
                      (handle_cached_response dns moka names h clock request query)
                      (resolve_and_serve dns moka names h clock request query) u
                      (handle_cached_response-Tried dns moka names h clock request query deliverable
                        u)
                      (λ v _. resolve_and_serve-Replied v))))

  abbrev pub context : Clock → String → RecordType → QueryContext
  context clock name qtype = record {
    name = make_ascii_lowercase (without_dot name);
    qtype = qtype;
    start = clock.start;
  }

  -- If the request has a query, its response can be sent, the lock is not poisoned, the resolver
  -- returns (an error, or records whose times to live are 32-bit numbers) and counts neither blocked
  -- queries nor hits, and the platform's last instant is no earlier than the end of the configured
  -- grace of an answer that is kept for 2^32 - 1 seconds, or for the configured minimum time to live if
  -- that is longer, then `handle_request` returns a response and sends exactly that one, and it logs one entry, on the lowercased name without
  -- its dot, if logging is on, and none if it is off. The blocked queries grow by one, modulo 2^64, if
  -- that entry is blocked and has a source, and the hits if it is cached, and not otherwise.
  pub handle_request-Replied :
      (h : Handler) (clock : Clock) (request : Request) (name : String) (qtype : RecordType)
      (s : Server dns moka)
      → request.query ≡ some (name, qtype)
      → request.deliverable ≡ true
      → s.app_state.poisoned ≡ false
      → ((state : dns.State) (stats : StatsCollector) (n : String) (q : RecordType)
          → (r : Result Answer) × ((dns.resolve state stats n q).0 ≡ returns r)
            × Quiet stats (dns.resolve state stats n q).2
            × HasU32 r)
      → latest_end h.config clock.resolved ≤ moka.max_instant
      → Replied dns moka names h clock request
          (context clock name qtype)
          (λ r. r)
          s
          (handle_request dns moka names h clock request s)
  unfolding handle_request get_query_info count_query count_domain inc_queries inc_client_query
      inc_domain_query
  handle_request-Replied h clock request name qtype s has_query deliverable safe responsive room =
      let query = context clock name qtype in
      let e : get_query_info clock request ≡ returns query = rw has_query refl in
      let counted = count_query dns moka names request s in
      let serve = λ (q : QueryContext) (t : Server dns moka).
        serve_query dns moka names h clock request q (count_domain dns moka names q t) in
      subst
        (λ o. Replied dns moka names h clock request query (λ r. r) s (resume_with o counted serve))
        (sym e)
        (serve_query-Replied h clock request query deliverable responsive room
          (count_domain dns moka names query counted) safe)
