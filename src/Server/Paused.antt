-- ===== src/Server/Paused.antt =====
-- While the blocking is paused, the handlers of src/server/dns_request_handler.rs do not read the
-- blocklist.
use ad_nope.Prelude.{
  ltb, ℕ, ◌≡◌, refl, ap, ◌∙◌, Bool, true, false, Bool-cases, ◌&&◌, ◌++◌, List, [], ◌∷◌, String,
  Option, none, some, Outcome, returns, panics, Result, ok, err, inl, inr, if◌then◌else◌, ◌==◌,
  string_eq,
}
use ad_nope.Prelude.HashMap
use ad_nope.Prelude.Text.{concat}
use ad_nope.Dns.{Record, aaaa, type_eq}
use ad_nope.Engine.State.{is_blocking_active, active_at, unwrap}
use ad_nope.Resolver.{Answer}
use ad_nope.Stats.{inc_cache_hit}
use ad_nope.Server.Action.{Action, resume_with}
use ad_nope.Server.Interfaces.{DnsResolver, CacheLibrary, NameParser, Key}
use ad_nope.Server.Cache.{
  ResponseCode, no_error, serv_fail, Response, Server, resolve_and_cache, check_cache, cache_answer,
  entry_at, served_records, cache_outcome,
}
use ad_nope.Server.Query.{
  LogContext, QueryContext, Request, Clock, Handler, get_query_info, cached_log, forwarded_log,
  local_log, ipv6_log, answers_query,
}
use ad_nope.Server.Handler.Responses.{send_response, log_query, respond, serve_records}
use ad_nope.Server.Handler.{
  handled, or_return, serve_local, handle_local_records, handle_listed, handle_blocked_request,
  serve_cached, after_lookup, handle_cached_response, serve_answer, resolve_and_serve, ◌otherwise◌,
  serve_query, count_query, count_domain, handle_request,
}
use ad_nope.Server.Untouched.{handle_local_records-Kept}

module _ (dns : DnsResolver) (moka : CacheLibrary) (names : NameParser)
    (b : String → Option ℕ) where
  -- The server with another blocklist, and what an action leads to with that one.
  abbrev with_list : Server dns moka → Server dns moka
  with_list s = record s { blocklist = b }

  abbrev relisted {ℓ} : {A : Type ℓ} → Outcome A × Server dns moka → Outcome A × Server dns moka
  relisted (o, s) = (o, with_list s)

  -- The action does with the other blocklist what it does with that of the state.
  abbrev Ignores : {A : Type 0} → Action (Server dns moka) A → Server dns moka → Type 0
  Ignores m s = m (with_list s) ≡ relisted (m s)

  resume_with-Ignores :
      {A B : Type 0} (o : Outcome A) (t : Server dns moka) (f : A → Action (Server dns moka) B)
      → ((x : A) → Ignores (f x) t)
      → resume_with o (with_list t) f ≡ relisted (resume_with o t f)
  resume_with-Ignores (returns x) t f next = next x
  resume_with-Ignores panics t f next = refl

  bind-Ignores :
      {A B : Type 0} (m : Action (Server dns moka) A) (f : A → Action (Server dns moka) B)
      (s : Server dns moka)
      → Ignores m s
      → ((x : A) → Ignores (f x) (m s).1)
      → Ignores (λ t. resume_with (m t).0 (m t).1 f) s
  bind-Ignores m f s h next =
      ap (λ p. resume_with p.0 p.1 f) h ∙ resume_with-Ignores (m s).0 (m s).1 f next

  if-Ignores :
      {A : Type 0} (c : Bool) (m n : Action (Server dns moka) A) (s : Server dns moka)
      → Ignores m s
      → Ignores n s
      → Ignores (if c then m else n) s
  if-Ignores true m n s p q = p
  if-Ignores false m n s p q = q

  handled-Ignores :
      (m : Action (Server dns moka) Response) (s : Server dns moka)
      → Ignores m s
      → Ignores (handled dns moka names m) s
  handled-Ignores m s h = bind-Ignores m _ s h (λ x. refl)

  or_return-Ignores :
      (n : Action (Server dns moka) Response) (r : Option Response) (s : Server dns moka)
      → Ignores n s
      → Ignores (or_return dns moka names r n) s
  or_return-Ignores n none s h = h
  or_return-Ignores n (some info) s h = refl

  otherwise-Ignores :
      (m : Action (Server dns moka) (Option Response)) (n : Action (Server dns moka) Response)
      (s : Server dns moka)
      → Ignores m s
      → Ignores n (m s).1
      → Ignores (◌otherwise◌ dns moka names m n) s
  otherwise-Ignores m n s h k = bind-Ignores m _ s h (λ r. or_return-Ignores n r (m s).1 k)

  module _ (h : Handler) (clock : Clock) (request : Request) (query : QueryContext) where
    respond-Ignores :
        (code : ResponseCode) (records : List Record) (log : LogContext) (s : Server dns moka)
        → Ignores (respond dns moka names h clock request code records query log) s
    unfolding respond send_response log_query
    respond-Ignores code records log s = elim (Bool-cases request.deliverable) [
      | inr lost ↦ rw lost refl
      | inl sent ↦ elim (Bool-cases h.config.logging.enable) [
        | inl e ↦ rw (sent, e) refl
        | inr e ↦ rw (sent, e) refl
      ]
    ]

    serve_local-Ignores :
        (found : Option (List Record)) (s : Server dns moka)
        → Ignores (serve_local dns moka names h clock request query found) s
    unfolding serve_local serve_records
    serve_local-Ignores none s = refl
    serve_local-Ignores (some records) s =
        if-Ignores (answers_query query.qtype records) _ _ s
          (handled-Ignores (serve_records dns moka names h clock request records query local_log) s
            (respond-Ignores no_error records local_log s))
          refl

    after_lookup-Ignores :
        (found : Option (List Record × Bool × Option ℕ)) (s : Server dns moka)
        → Ignores (after_lookup dns moka names h clock request query found) s
    unfolding after_lookup serve_cached serve_records
    after_lookup-Ignores none s = refl
    after_lookup-Ignores (some (records, is_stale, ttl)) s =
        handled-Ignores (serve_cached dns moka names h clock request query records is_stale ttl) s (
          respond-Ignores no_error records (cached_log ttl) (record s {
            stats = inc_cache_hit s.stats;
            spawned = if is_stale then s.spawned ++ ((query.name, query.qtype) ∷ []) else s.spawned;
          }))

    handle_cached_response-Ignores :
        (s : Server dns moka)
        → Ignores (handle_cached_response dns moka names h clock request query) s
    unfolding handle_cached_response check_cache
    handle_cached_response-Ignores s =
        let (found, t) = check_cache dns moka clock.cache_check query.name query.qtype s in
        after_lookup-Ignores found t

    serve_answer-Ignores :
        (r : Result Answer) (s : Server dns moka)
        → Ignores (serve_answer dns moka names h clock request query r) s
    unfolding serve_answer serve_records
    serve_answer-Ignores (ok (records, upstream)) s =
        respond-Ignores no_error records (forwarded_log upstream) s
    serve_answer-Ignores (err e) s =
        respond-Ignores serv_fail [] (forwarded_log (concat "error: " e)) s

    stored-Ignores :
        (b : Bool) (r : Result Answer) (store : moka.Store) (s : Server dns moka)
        → Ignores (λ t. if b then (panics, t) else (returns r, record t { cache = store })) s
    stored-Ignores true r store s = refl
    stored-Ignores false r store s = refl

    cache_outcome-Ignores :
        (key : Key) (o : Outcome (Result Answer)) (s : Server dns moka)
        → Ignores (cache_outcome dns moka h.config clock.resolved key o) s
    unfolding cache_answer
    cache_outcome-Ignores key panics s = refl
    cache_outcome-Ignores key (returns (ok (records, upstream))) s =
        stored-Ignores
          (ltb moka.max_instant
            (entry_at h.config clock.resolved (served_records h.config records)).stale_until)
          (ok (served_records h.config records, upstream))
          (moka.insert s.cache key
            (entry_at h.config clock.resolved (served_records h.config records)))
          s
    cache_outcome-Ignores key (returns (err e)) s = refl

    resolve_and_serve-Ignores :
        (s : Server dns moka) → Ignores (resolve_and_serve dns moka names h clock request query) s
    unfolding resolve_and_serve resolve_and_cache
    resolve_and_serve-Ignores s =
        let (o, state, stats) = dns.resolve s.resolver s.stats query.name query.qtype in
        bind-Ignores (resolve_and_cache dns moka h.config clock.resolved query.name query.qtype)
          (serve_answer dns moka names h clock request query) s
          (cache_outcome-Ignores (query.name, query.qtype) o
            (record s { resolver = state; stats = stats }))
          (λ r. serve_answer-Ignores r _)

    -- The lock is not poisoned, and the pause has not ended.
    abbrev IsPaused : Server dns moka → Type 0
    IsPaused s = is_blocking_active s.app_state clock.pause_check ≡ returns false

    handle_blocked_request-Ignores :
        (s : Server dns moka)
        → IsPaused s
        → Ignores (handle_blocked_request dns moka names h clock request query) s
    unfolding handle_blocked_request handle_listed
    handle_blocked_request-Ignores s paused = rw paused refl

    serve_query-Ignores :
        (s : Server dns moka)
        → IsPaused s
        → Ignores (serve_query dns moka names h clock request query) s
    unfolding serve_query serve_records handle_local_records
    serve_query-Ignores s paused =
        let listed = handle_blocked_request dns moka names h clock request query in
        let stored = handle_cached_response dns moka names h clock request query in
        let asked = resolve_and_serve dns moka names h clock request query in
        let local = handle_local_records dns moka names h clock request query in
        let after_listed = ◌otherwise◌ dns moka names stored asked in
        let after_local = ◌otherwise◌ dns moka names listed after_listed in
        let t = (local s).1 in
        let u = (listed t).1 in
        let still : IsPaused t =
          ap (λ a. is_blocking_active a clock.pause_check)
            (handle_local_records-Kept dns moka names h clock request query s).0
          ∙ paused in
        if-Ignores (h.config.disable_ipv6 && query.qtype == aaaa)
          (serve_records dns moka names h clock request [] query ipv6_log)
          (◌otherwise◌ dns moka names local after_local) s (respond-Ignores no_error [] ipv6_log s)
          (otherwise-Ignores local after_local s
            (serve_local-Ignores (HashMap.get query.name h.local_records) s)
            (otherwise-Ignores listed after_listed t (handle_blocked_request-Ignores t still) (
              otherwise-Ignores stored asked u (handle_cached_response-Ignores u)
                (resolve_and_serve-Ignores (stored u).1))))

  -- If the lock is not poisoned and the pause lasts when the request is checked, then the request has the
  -- same outcome with any other blocklist, and leaves the server in the same state but for that list:
  -- what is sent, logged, counted and cached does not depend on it.
  pub handle_request-paused :
      (h : Handler) (clock : Clock) (request : Request) (s : Server dns moka)
      → s.app_state.poisoned ≡ false
      → active_at s.app_state.blocking_paused_until clock.pause_check ≡ false
      → handle_request dns moka names h clock request (record s { blocklist = b }) ≡ (
        (handle_request dns moka names h clock request s).0,
        record (handle_request dns moka names h clock request s).1 { blocklist = b },
      )
  unfolding handle_request count_query count_domain is_blocking_active unwrap
  handle_request-paused h clock request s safe paused =
      let counted = count_query dns moka names request s in
      let off : is_blocking_active counted.app_state clock.pause_check ≡ returns false =
        rw (safe, paused) refl in
      resume_with-Ignores (get_query_info clock request) counted
        (λ query t.
          serve_query dns moka names h clock request query (count_domain dns moka names query t))
        (λ query.
          serve_query-Ignores h clock request query (count_domain dns moka names query counted) off)
