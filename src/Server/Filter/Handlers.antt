-- ===== src/Server/Filter/Handlers.antt =====
-- Every handler of src/server/dns_request_handler.rs sends no AAAA record when they are disabled.
use ad_nope.Prelude.{
  ℕ, ◌≡◌, Bool, true, false, List, [], ◌∷◌, ◌++◌, Option, none, some, returns, panics, Outcome,
  Result, ok, err, if◌then◌else◌, string_eq, pair_eq,
}
use ad_nope.Prelude.Text.{concat}
use ad_nope.Dns.{Record, type_eq}
use ad_nope.Stats.{inc_cache_hit}
use ad_nope.Resolver.{Answer}
use ad_nope.Server.Action.{Action, resume_with}
use ad_nope.Server.Interfaces.{DnsResolver, CacheLibrary, NameParser, Key}
use ad_nope.Server.Cache.{ResponseCode, no_error, serv_fail, Response, Server, check_cache}
use ad_nope.Server.Query.{
  QueryContext, LogContext, Request, Clock, Handler, forwarded_log, cached_log,
}
use ad_nope.Server.Handler.{
  handled, serve_cached, after_lookup, handle_cached_response, serve_answer, resolve_and_serve,
  ◌otherwise◌, or_return,
}
use ad_nope.Server.Handler.Responses.{
  send_response, log_query, respond, serve_records, count_blocked,
}
use ad_nope.Server.Filter.{HasNoAaaa, IsClean-append}
use ad_nope.Server.Filter.Cached.{
  IsFiltered, looked_up, IsHeldAnswer, looked_up-IsHeld, IsHeld-less, IsCleanAnswer,
  resolve_and_cache-IsFiltered, if-IsFiltered, pair-IsFiltered, bind-IsFiltered,
}

module _ (dns : DnsResolver) (moka : CacheLibrary) (names : NameParser) where
  module _ (h : Handler) (filtering : h.config.disable_ipv6 ≡ true) where
    module _ (clock : Clock) (request : Request) (query : QueryContext) where
      send_response-IsFiltered :
          (r : Response) (s : Server dns moka)
          → HasNoAaaa r.answers
          → IsFiltered dns moka names s
          → IsFiltered dns moka names (send_response dns moka names request r s).1
      unfolding send_response
      send_response-IsFiltered r s new i =
          pair-IsFiltered dns moka names h filtering request.deliverable
            (returns r, record s { sent = s.sent ++ (r ∷ []) }) (panics, s)
            (record { held = i.held; clean = IsClean-append s.sent r i.clean new }) i

      log_query-IsFiltered :
          (log : LogContext) (s : Server dns moka)
          → IsFiltered dns moka names s
          → IsFiltered dns moka names (log_query dns moka names h clock request query log s)
      unfolding log_query
      log_query-IsFiltered log s i =
          if-IsFiltered dns moka names h filtering h.config.logging.enable _ s
            (record { held = i.held; clean = i.clean }) i

      pub respond-IsFiltered :
          (code : ResponseCode) (rs : List Record) (log : LogContext) (s : Server dns moka)
          → HasNoAaaa rs
          → IsFiltered dns moka names s
          → IsFiltered dns moka names (respond dns moka names h clock request code rs query log s).1
      unfolding respond
      respond-IsFiltered code rs log s new i =
          let r : Response = record { code = code; authoritative = false; answers = rs } in
          let (o, t) = send_response dns moka names request r s in
          let j = send_response-IsFiltered r s new i in
          bind-IsFiltered dns moka names h filtering o t _ j (λ info. log_query-IsFiltered log t j)

      pub serve_records-IsFiltered :
          (rs : List Record) (log : LogContext) (s : Server dns moka)
          → HasNoAaaa rs
          → IsFiltered dns moka names s
          → IsFiltered dns moka names
              (serve_records dns moka names h clock request rs query log s).1
      unfolding serve_records
      serve_records-IsFiltered rs log s new i = respond-IsFiltered no_error rs log s new i

      pub handled-IsFiltered :
          (m : Action (Server dns moka) Response) (s : Server dns moka)
          → IsFiltered dns moka names (m s).1
          → IsFiltered dns moka names (handled dns moka names m s).1
      handled-IsFiltered m s i =
          bind-IsFiltered dns moka names h filtering (m s).0 (m s).1 _ i (λ r. i)

      after_lookup-IsFiltered :
          (found : Option (List Record × Bool × Option ℕ)) (s : Server dns moka)
          → IsHeldAnswer dns moka names found
          → IsFiltered dns moka names s
          → IsFiltered dns moka names (after_lookup dns moka names h clock request query found s).1
      unfolding after_lookup serve_cached
      after_lookup-IsFiltered none s new i = i
      after_lookup-IsFiltered (some (rs, is_stale, ttl)) s new i =
          handled-IsFiltered (serve_cached dns moka names h clock request query rs is_stale ttl) s (
            serve_records-IsFiltered rs (cached_log ttl)
              (record s {
                stats = inc_cache_hit s.stats;
                spawned =
                    if is_stale then s.spawned ++ ((query.name, query.qtype) ∷ []) else s.spawned;
              })
              new (record { held = i.held; clean = i.clean }))

      pub handle_cached_response-IsFiltered :
          (s : Server dns moka)
          → IsFiltered dns moka names s
          → IsFiltered dns moka names
              (handle_cached_response dns moka names h clock request query s).1
      unfolding handle_cached_response check_cache
      handle_cached_response-IsFiltered s i =
          let key : Key = (query.name, query.qtype) in
          let (found, store) = moka.get s.cache key in
          after_lookup-IsFiltered (looked_up dns moka names clock.cache_check found)
            (record s { cache = store })
            (looked_up-IsHeld dns moka names clock.cache_check found (i.held key))
            (record {
              held = λ k.
                  IsHeld-less dns moka names (moka.get store k).0 (moka.get s.cache k).0
                    (moka.get-get s.cache key k) (i.held k);
              clean = i.clean;
            })

      serve_answer-IsFiltered :
          (o : Outcome (Result Answer)) (s : Server dns moka)
          → IsCleanAnswer dns moka names h filtering o
          → IsFiltered dns moka names s
          → IsFiltered dns moka names
              (resume_with o s (serve_answer dns moka names h clock request query)).1
      unfolding serve_answer
      serve_answer-IsFiltered panics s new i = i
      serve_answer-IsFiltered (returns (ok (rs, up))) s new i =
          serve_records-IsFiltered rs (forwarded_log up) s new i
      serve_answer-IsFiltered (returns (err e)) s new i =
          respond-IsFiltered serv_fail [] (forwarded_log (concat "error: " e)) s tt i

      pub resolve_and_serve-IsFiltered :
          (s : Server dns moka)
          → IsFiltered dns moka names s
          → IsFiltered dns moka names (resolve_and_serve dns moka names h clock request query s).1
      unfolding resolve_and_serve
      resolve_and_serve-IsFiltered s i =
          let (new, j) =
            resolve_and_cache-IsFiltered dns moka names h filtering clock.resolved query.name
              query.qtype s i in
          serve_answer-IsFiltered _ _ new j

      pub count_blocked-IsFiltered :
          (id : ℕ) (s : Server dns moka)
          → IsFiltered dns moka names s
          → IsFiltered dns moka names (count_blocked dns moka names request query id s)
      unfolding count_blocked
      count_blocked-IsFiltered id s i = record { held = i.held; clean = i.clean }

      pub otherwise-IsFiltered :
          (m : Action (Server dns moka) (Option Response)) (n : Action (Server dns moka) Response)
          (s : Server dns moka)
          → IsFiltered dns moka names (m s).1
          → ((t : Server dns moka)
              → IsFiltered dns moka names t
              → IsFiltered dns moka names (n t).1)
          → IsFiltered dns moka names (◌otherwise◌ dns moka names m n s).1
      otherwise-IsFiltered m n s i next =
          bind-IsFiltered dns moka names h filtering (m s).0 (m s).1
            (λ r. or_return dns moka names r n) i (λ r. returned r (m s).1 i)
        where
          returned :
              (r : Option Response) (t : Server dns moka)
              → IsFiltered dns moka names t
              → IsFiltered dns moka names (or_return dns moka names r n t).1
          returned (some info) t j = j
          returned none t j = next t j
