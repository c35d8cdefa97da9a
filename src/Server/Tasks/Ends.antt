-- ===== src/Server/Tasks/Ends.antt =====
-- The ends of a task of src/server/dns_request_handler.rs that no other interrupts, once it answers or
-- asks the resolver.
use ad_nope.Prelude.{
  ℕ, ◌≡◌, refl, sym, Bool, true, false, List, [], ◌∷◌, ◌++◌, Option, none, some, Outcome, returns,
  panics, Result, ok, err, string_eq, if◌then◌else◌,
}
use mathlib.Core.Path.{subst}
use ad_nope.Prelude.Text.{concat}
use ad_nope.Dns.{Record, type_eq}
use ad_nope.Resolver.{Answer}
use ad_nope.Server.Action.{Action, resume_with, pure}
use ad_nope.Server.Interfaces.{DnsResolver, CacheLibrary, NameParser}
use ad_nope.Server.Cache.{
  ResponseCode, no_error, serv_fail, Response, Server, cache_answer, cache_outcome,
  resolve_and_cache,
}
use ad_nope.Server.Query.{
  QueryContext, LogContext, Request, Clock, Handler, cached_log, forwarded_log,
}
use ad_nope.Server.Handler.{
  handled, serve_cached, after_lookup, serve_answer, resolve_and_serve, or_return,
}
use ad_nope.Server.Handler.Responses.{send_response, log_query, respond, serve_records}
use ad_nope.Server.Tasks.{
  Pc, missed, answering, done, panicked, after_cache, after_resolver, answered_with, sending,
  advance,
}

module _ (dns : DnsResolver) (moka : CacheLibrary) (names : NameParser) where
  module _ (h : Handler) (clock : Clock) (request : Request) where
    -- The steps of the task alone lead to an outcome and a state.
    pub data Ends : Pc × Server dns moka → Outcome Response × Server dns moka → Type 0 where
      at_end : {info : Response} {s : Server dns moka} → Ends (done info, s) (returns info, s)
      at_panic : {s : Server dns moka} → Ends (panicked, s) (panics, s)
      more :
          {pc : Pc} {s : Server dns moka} {o : Outcome Response × Server dns moka}
          → Ends (advance dns moka names h clock request pc s) o
          → Ends (pc, s) o

    module _ (query : QueryContext) where
      -- What `send_response` gives for a request that can be answered or not.
      abbrev delivery : Bool → Response → Server dns moka → Outcome Response × Server dns moka
      delivery deliverable response s =
          if deliverable
          then (returns response, record s { sent = s.sent ++ (response ∷ []) })
          else (panics, s)

      sending-Ends :
          (deliverable : Bool) (log : LogContext) (response : Response) (s : Server dns moka)
          → Ends (sending dns moka names h clock request deliverable query log response s) (
              resume_with
                (delivery deliverable response s).0
                (delivery deliverable response s).1
                (λ info t. (returns info, log_query dns moka names h clock request query log t)))
      unfolding advance
      sending-Ends true log response s = more at_end
      sending-Ends false log response s = at_panic

      pub respond-Ends :
          (code : ResponseCode) (records : List Record) (log : LogContext) (s : Server dns moka)
          → Ends
              (answering query code records log, s)
              (respond dns moka names h clock request code records query log s)
      unfolding advance respond send_response
      respond-Ends code records log s = more (
          sending-Ends request.deliverable log
            (record { code = code; authoritative = false; answers = records }) s)

      pub serve_records-Ends :
          (records : List Record) (log : LogContext) (s : Server dns moka)
          → Ends
              (answering query no_error records log, s)
              (serve_records dns moka names h clock request records query log s)
      unfolding serve_records
      serve_records-Ends records log s = respond-Ends no_error records log s

      -- A handler that answers ends the request.
      handled-otherwise :
          (o : Outcome Response) (t : Server dns moka) (rest : Action (Server dns moka) Response)
          → resume_with
              (resume_with o t (λ info. pure (some info))).0
              (resume_with o t (λ info. pure (some info))).1
              (λ r. or_return dns moka names r rest)
            ≡ (o, t)
      handled-otherwise (returns info) t rest = refl
      handled-otherwise panics t rest = refl

      pub handled-Ends :
          (p : Pc × Server dns moka) (m rest : Action (Server dns moka) Response)
          (s : Server dns moka)
          → Ends p (m s)
          → Ends p (
              resume_with
                (handled dns moka names m s).0
                (handled dns moka names m s).1
                (λ r. or_return dns moka names r rest))
      handled-Ends p m rest s e =
          subst (λ o. Ends p o) (sym (handled-otherwise (m s).0 (m s).1 rest)) e

      serve_answer-Ends :
          (o : Outcome (Result Answer)) (s : Server dns moka)
          → Ends
              (answered_with dns moka names h clock request query o, s)
              (resume_with o s (serve_answer dns moka names h clock request query))
      unfolding serve_answer
      serve_answer-Ends panics s = at_panic
      serve_answer-Ends (returns (ok (records, upstream))) s =
          serve_records-Ends records (forwarded_log upstream) s
      serve_answer-Ends (returns (err e)) s =
          respond-Ends serv_fail [] (forwarded_log (concat "error: " e)) s

      after_resolver-Ends :
          (o : Outcome (Result Answer)) (s : Server dns moka)
          → Ends
              (after_resolver dns moka names h clock request query o, s)
              (resume_with
                (cache_outcome dns moka h.config clock.resolved (query.name, query.qtype) o s).0
                (cache_outcome dns moka h.config clock.resolved (query.name, query.qtype) o s).1
                (serve_answer dns moka names h clock request query))
      unfolding advance
      after_resolver-Ends panics s = at_panic
      after_resolver-Ends (returns r) s = more (
          serve_answer-Ends
            (cache_answer dns moka h.config clock.resolved (query.name, query.qtype) r s).0
            (cache_answer dns moka h.config clock.resolved (query.name, query.qtype) r s).1)

      resolve_and_serve-Ends :
          (s : Server dns moka)
          → Ends (missed query, s) (resolve_and_serve dns moka names h clock request query s)
      unfolding advance resolve_and_serve resolve_and_cache
      resolve_and_serve-Ends s = more (after_resolver-Ends _ _)

      pub after_cache-Ends :
          (found : Option (List Record × Bool × Option ℕ)) (s : Server dns moka)
          → Ends (after_cache dns moka names h clock request query found s) (
              resume_with
                (after_lookup dns moka names h clock request query found s).0
                (after_lookup dns moka names h clock request query found s).1
                (λ r.
                  or_return dns moka names r
                    (resolve_and_serve dns moka names h clock request query)))
      unfolding after_lookup serve_cached
      after_cache-Ends none s = resolve_and_serve-Ends s
      after_cache-Ends (some (records, is_stale, ttl)) s =
          handled-Ends _ (serve_cached dns moka names h clock request query records is_stale ttl) _
            s (serve_records-Ends records (cached_log ttl) _)
