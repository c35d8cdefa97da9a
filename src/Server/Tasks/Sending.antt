-- ===== src/Server/Tasks/Sending.antt =====
-- What one step of a task of src/server/dns_request_handler.rs sends.
use ad_nope.Prelude.{
  ap, ℕ, ◌≡◌, ◌⊎◌, refl, Bool, true, false, ◌&&◌, List, [], ◌∷◌, ◌++◌, Option, none, some, inl, inr,
  Outcome, returns, panics, Result, ok, err, ◌==◌, string_eq, if◌then◌else◌, arith,
}
use ad_nope.Prelude.HashMap
use ad_nope.Dns.{aaaa, Record, type_eq}
use ad_nope.Engine.State.{is_blocking_active}
use ad_nope.Resolver.{Answer}
use ad_nope.Server.Interfaces.{DnsResolver, CacheLibrary, NameParser, Key}
use ad_nope.Server.Cache.{Response, Server, check_cache, cache_answer}
use ad_nope.Server.Caching.{cache_answer-IsStored}
use ad_nope.Server.Query.{
  QueryContext, LogContext, Request, Clock, Handler, get_query_info, blocked_record, answers_query,
}
use ad_nope.Server.Handler.{count_query, count_domain, check_blocklist}
use ad_nope.Server.Handler.Responses.{log_query, count_blocked}
use ad_nope.Server.Tasks.{
  Pc, received, named, unanswered, active, unblocked, missed, resolved, answering, sent, done,
  panicked, after_info, after_local, after_pause, blocked_with, after_blocklist, after_cache,
  after_resolver, answered_with, sending, advance,
}
use ad_nope.Server.Tasks.System.{Task, serving, refreshing}

-- The response of a task that has sent it.
abbrev pub response_at : Pc → Option Response
response_at (sent query log info) = some info
response_at (done info) = some info
response_at _ = none

abbrev pub response_of : Task → Option Response
response_of (serving clock request pc) = response_at pc
response_of (refreshing now key stage) = none

abbrev pub with_response : Option Response → List Response → List Response
with_response none rs = rs
with_response (some info) rs = info ∷ rs

abbrev pub responses : List Task → List Response
responses [] = []
responses (t ∷ ts) = with_response (response_of t) (responses ts)

module _ (dns : DnsResolver) (moka : CacheLibrary) (names : NameParser) where
  -- A step sends nothing and keeps whether there is a response, or it sends the response.
  abbrev pub Sends : Option Response → Server dns moka → Option Response × Server dns moka → Type 0
  Sends before s o =
      ((o.1.sent ≡ s.sent) × (o.0 ≡ before))
      ⊎ ((info : Response) × (o.1.sent ≡ s.sent ++ (info ∷ []))
          × (before ≡ none)
          × (o.0 ≡ some info))

  abbrev seen : Pc × Server dns moka → Option Response × Server dns moka
  seen p = (response_at p.0, p.1)

  pub cache_answer-sent :
      (h : Handler) (now : ℕ) (key : Key) (r : Result Answer) (s : Server dns moka)
      → (cache_answer dns moka h.config now key r s).1.sent ≡ s.sent
  cache_answer-sent h now key r s =
      ap (λ (t : Server dns moka). t.sent) (cache_answer-IsStored dns moka h.config now key r s).1

  module _ (h : Handler) (clock : Clock) (request : Request) where
    after_info-Sends :
        (o : Outcome QueryContext) (s : Server dns moka)
        → Sends none s (seen (after_info dns moka names h clock request o s))
    unfolding count_domain
    after_info-Sends panics s = inl (refl, refl)
    after_info-Sends (returns query) s = inl (refl, refl)

    module _ (query : QueryContext) where
      if-none :
          (b : Bool) (p q : Pc)
          → response_at p ≡ none
          → response_at q ≡ none
          → response_at (if b then p else q) ≡ none
      if-none true p q a b = a
      if-none false p q a b = b

      after_local-none :
          (found : Option (List Record))
          → response_at (after_local dns moka names h clock request query found) ≡ none
      after_local-none none = refl
      after_local-none (some records) = if-none (answers_query query.qtype records) _ _ refl refl

      after_pause-none :
          (o : Outcome Bool)
          → response_at (after_pause dns moka names h clock request query o) ≡ none
      after_pause-none panics = refl
      after_pause-none (returns true) = refl
      after_pause-none (returns false) = refl

      blocked_with-none :
          (log : LogContext) (made : Option Record)
          → response_at (blocked_with dns moka names h clock request query log made) ≡ none
      blocked_with-none log none = refl
      blocked_with-none log (some r) = refl

      after_blocklist-Sends :
          (listed : Option ℕ) (s : Server dns moka)
          → Sends none s (seen (after_blocklist dns moka names h clock request query listed s))
      unfolding count_blocked
      after_blocklist-Sends none s = inl (refl, refl)
      after_blocklist-Sends (some source_id) s =
          inl (refl, blocked_with-none _ (blocked_record names query))

      after_cache-Sends :
          (found : Option (List Record × Bool × Option ℕ)) (s t : Server dns moka)
          → t.sent ≡ s.sent
          → Sends none s (seen (after_cache dns moka names h clock request query found t))
      after_cache-Sends none s t same = inl (same, refl)
      after_cache-Sends (some (records, is_stale, ttl)) s t same = inl (same, refl)

      after_resolver-none :
          (o : Outcome (Result Answer))
          → response_at (after_resolver dns moka names h clock request query o) ≡ none
      after_resolver-none panics = refl
      after_resolver-none (returns r) = refl

      answered_with-none :
          (r : Outcome (Result Answer))
          → response_at (answered_with dns moka names h clock request query r) ≡ none
      answered_with-none panics = refl
      answered_with-none (returns (ok (records, upstream))) = refl
      answered_with-none (returns (err e)) = refl

      sending-Sends :
          (deliverable : Bool) (log : LogContext) (info : Response) (s : Server dns moka)
          → Sends none s
              (seen (sending dns moka names h clock request deliverable query log info s))
      sending-Sends true log info s = inr (info, refl, refl, refl)
      sending-Sends false log info s = inl (refl, refl)

    log_query-sent :
        (query : QueryContext) (log : LogContext) (s : Server dns moka)
        → (log_query dns moka names h clock request query log s).sent ≡ s.sent
    unfolding log_query
    log_query-sent query log s = ground arith

    pub advance-Sends :
        (pc : Pc) (s : Server dns moka)
        → Sends (response_at pc) s (seen (advance dns moka names h clock request pc s))
    unfolding advance count_query check_cache
    advance-Sends received s =
        after_info-Sends (get_query_info clock request) (count_query dns moka names request s)
    advance-Sends (named query) s = inl (
      refl,
      if-none query (h.config.disable_ipv6 && query.qtype == aaaa) _ _ refl
          (after_local-none query (HashMap.get query.name h.local_records)),
    )
    advance-Sends (unanswered query) s =
        inl (refl, after_pause-none query (is_blocking_active s.app_state clock.pause_check))
    advance-Sends (active query) s =
        after_blocklist-Sends query (check_blocklist dns moka names query.name s) s
    advance-Sends (unblocked query) s = after_cache-Sends query _ s _ refl
    advance-Sends (missed query) s = inl (refl, after_resolver-none query _)
    advance-Sends (resolved query r) s = inl (
      cache_answer-sent h clock.resolved (query.name, query.qtype) r s,
      answered_with-none query _,
    )
    advance-Sends (answering query code records log) s =
        sending-Sends query request.deliverable log _ s
    advance-Sends (sent query log info) s = inl (log_query-sent query log s, refl)
    advance-Sends (done info) s = inl (refl, refl)
    advance-Sends panicked s = inl (refl, refl)
