-- ===== src/Server/Untouched.antt =====
-- What the handlers of src/server/dns_request_handler.rs never write, panics included: the pause and
-- the blocklist.
use ad_nope.Prelude.{
  ltb, ℕ, ◌≡◌, refl, ◌∙◌, Bool, true, false, ◌&&◌, List, [], ◌∷◌, ◌++◌, Option, none, some, Outcome,
  returns, panics, Result, ok, err, arith, if◌then◌else◌, ◌==◌, string_eq,
}
use ad_nope.Prelude.HashMap
use ad_nope.Prelude.Text.{concat}
use ad_nope.Config.{Config}
use ad_nope.Dns.{Record, aaaa, type_eq}
use ad_nope.Engine.State.{is_blocking_active}
use ad_nope.Resolver.{Answer}
use ad_nope.Stats.{inc_cache_hit}
use ad_nope.Server.Action.{Action, resume_with}
use ad_nope.Server.Interfaces.{DnsResolver, CacheLibrary, NameParser, Key}
use ad_nope.Server.Cache.{
  ResponseCode, no_error, serv_fail, nx_domain, Response, Server, resolve_and_cache, check_cache,
  cache_answer, cache_outcome, entry_at, served_records,
}
use ad_nope.Server.Query.{
  LogContext, QueryContext, Request, Clock, Handler, get_query_info, blocked_log, cached_log,
  forwarded_log, local_log, ipv6_log, answers_query, blocked_record,
}
use ad_nope.Server.Handler.{
  handled, or_return, serve_local, handle_local_records, check_blocklist, serve_listed,
  handle_listed, handle_blocked_request, serve_cached, after_lookup, handle_cached_response,
  serve_answer, resolve_and_serve, ◌otherwise◌, serve_query, count_query, count_domain,
  handle_request, refresh_stale,
}
use ad_nope.Server.Handler.Responses.{
  send_response, log_query, respond, serve_records, count_blocked, respond_blocked, serve_blocked,
}

module _ (dns : DnsResolver) (moka : CacheLibrary) (names : NameParser) where
  abbrev pub Kept : Server dns moka → Server dns moka → Type 0
  Kept s t = (t.app_state ≡ s.app_state) × (t.blocklist ≡ s.blocklist)

  trans-Kept : (s t u : Server dns moka) → Kept s t → Kept t u → Kept s u
  trans-Kept s t u (p, q) (p', q') = (p' ∙ p, q' ∙ q)

  -- An action that writes neither, from any state.
  abbrev Keeps : {A : Type 0} → Action (Server dns moka) A → Type 0
  Keeps m = (s : Server dns moka) → Kept s (m s).1

  resume_with-Kept :
      {A B : Type 0} (s t : Server dns moka) (o : Outcome A) (f : A → Action (Server dns moka) B)
      → Kept s t
      → ((x : A) → Keeps (f x))
      → Kept s (resume_with o t f).1
  resume_with-Kept s t (returns x) f k next = trans-Kept s t (f x t).1 k (next x t)
  resume_with-Kept s t panics f k next = k

  if-Keeps :
      {A : Type 0} (b : Bool) (m n : Action (Server dns moka) A)
      → Keeps m
      → Keeps n
      → Keeps (if b then m else n)
  if-Keeps true m n p q = p
  if-Keeps false m n p q = q

  handled-Keeps :
      (m : Action (Server dns moka) Response) → Keeps m → Keeps (handled dns moka names m)
  handled-Keeps m k s = resume_with-Kept s (m s).1 (m s).0 _ (k s) (λ x t. (refl, refl))

  or_return-Keeps :
      (n : Action (Server dns moka) Response) (r : Option Response)
      → Keeps n
      → Keeps (or_return dns moka names r n)
  or_return-Keeps n none k s = k s
  or_return-Keeps n (some info) k s = (refl, refl)

  otherwise-Keeps :
      (m : Action (Server dns moka) (Option Response)) (n : Action (Server dns moka) Response)
      → Keeps m
      → Keeps n
      → Keeps (◌otherwise◌ dns moka names m n)
  otherwise-Keeps m n k l s =
      resume_with-Kept s (m s).1 (m s).0 _ (k s) (λ r. or_return-Keeps n r l)

  stored-Kept :
      {A : Type 0} (b : Bool) (x y : Outcome A × Server dns moka) (s : Server dns moka)
      → Kept s x.1
      → Kept s y.1
      → Kept s (if b then x else y).1
  stored-Kept true x y s p q = p
  stored-Kept false x y s p q = q

  cache_outcome-Kept :
      (config : Config) (now : ℕ) (key : Key) (o : Outcome (Result Answer)) (s : Server dns moka)
      → Kept s (cache_outcome dns moka config now key o s).1
  unfolding cache_answer
  cache_outcome-Kept config now key panics s = (refl, refl)
  cache_outcome-Kept config now key (returns (ok (records, upstream))) s =
      stored-Kept
        (ltb moka.max_instant (entry_at config now (served_records config records)).stale_until)
        (panics, s) _ s (refl, refl) (refl, refl)
  cache_outcome-Kept config now key (returns (err e)) s = (refl, refl)

  resolve_and_cache-Keeps :
      (config : Config) (now : ℕ) (key : Key)
      → Keeps (resolve_and_cache dns moka config now key.0 key.1)
  unfolding resolve_and_cache
  resolve_and_cache-Keeps config now key s =
      let (o, state, stats) = dns.resolve s.resolver s.stats key.0 key.1 in
      cache_outcome-Kept config now key o (record s { resolver = state; stats = stats })

  module _ (h : Handler) (clock : Clock) (request : Request) where
    respond-Keeps :
        (query : QueryContext) (code : ResponseCode) (records : List Record) (log : LogContext)
        → Keeps (respond dns moka names h clock request code records query log)
    unfolding respond send_response log_query
    respond-Keeps query code records log s = (ground arith, ground arith)

    serve_local-Keeps :
        (query : QueryContext) (found : Option (List Record))
        → Keeps (serve_local dns moka names h clock request query found)
    unfolding serve_local serve_records
    serve_local-Keeps query none s = (refl, refl)
    serve_local-Keeps query (some records) s =
        if-Keeps (answers_query query.qtype records) _ _
          (handled-Keeps _ (respond-Keeps query no_error records local_log)) (λ t. (refl, refl)) s

    pub handle_local_records-Kept :
        (query : QueryContext) (s : Server dns moka)
        → Kept s (handle_local_records dns moka names h clock request query s).1
    unfolding handle_local_records
    handle_local_records-Kept query s =
        serve_local-Keeps query (HashMap.get query.name h.local_records) s

    respond_blocked-Keeps :
        (query : QueryContext) (log : LogContext) (o : Option Record)
        → Keeps (respond_blocked dns moka names h clock request query log o)
    unfolding respond_blocked serve_records
    respond_blocked-Keeps query log (some r) s = respond-Keeps query no_error (r ∷ []) log s
    respond_blocked-Keeps query log none s = respond-Keeps query nx_domain [] log s

    serve_listed-Keeps :
        (query : QueryContext) (o : Option ℕ)
        → Keeps (serve_listed dns moka names h clock request query o)
    unfolding serve_listed serve_blocked count_blocked
    serve_listed-Keeps query none s = (refl, refl)
    serve_listed-Keeps query (some id) s =
        handled-Keeps (serve_blocked dns moka names h clock request query id)
          (λ t.
            respond_blocked-Keeps query (blocked_log id) (blocked_record names query)
              (count_blocked dns moka names request query id t))
          s

    handle_listed-Keeps :
        (query : QueryContext) (active : Bool)
        → Keeps (handle_listed dns moka names h clock request query active)
    unfolding handle_listed
    handle_listed-Keeps query false s = (refl, refl)
    handle_listed-Keeps query true s =
        serve_listed-Keeps query (check_blocklist dns moka names query.name s) s

    after_lookup-Keeps :
        (query : QueryContext) (found : Option (List Record × Bool × Option ℕ))
        → Keeps (after_lookup dns moka names h clock request query found)
    unfolding after_lookup serve_cached serve_records
    after_lookup-Keeps query none s = (refl, refl)
    after_lookup-Keeps query (some (records, is_stale, ttl)) s =
        handled-Keeps (serve_cached dns moka names h clock request query records is_stale ttl)
          (λ t. respond-Keeps query no_error records (cached_log ttl) (record t {
            stats = inc_cache_hit t.stats;
            spawned = if is_stale then t.spawned ++ ((query.name, query.qtype) ∷ []) else t.spawned;
          }))
          s

    serve_answer-Keeps :
        (query : QueryContext) (r : Result Answer)
        → Keeps (serve_answer dns moka names h clock request query r)
    unfolding serve_answer serve_records
    serve_answer-Keeps query (ok (records, upstream)) s =
        respond-Keeps query no_error records (forwarded_log upstream) s
    serve_answer-Keeps query (err e) s =
        respond-Keeps query serv_fail [] (forwarded_log (concat "error: " e)) s

    handle_blocked_request-Keeps :
        (query : QueryContext) → Keeps (handle_blocked_request dns moka names h clock request query)
    unfolding handle_blocked_request
    handle_blocked_request-Keeps query s =
        resume_with-Kept s s (is_blocking_active s.app_state clock.pause_check) _ (refl, refl)
          (handle_listed-Keeps query)

    handle_cached_response-Keeps :
        (query : QueryContext) → Keeps (handle_cached_response dns moka names h clock request query)
    unfolding handle_cached_response check_cache
    handle_cached_response-Keeps query s =
        let (found, t) = check_cache dns moka clock.cache_check query.name query.qtype s in
        after_lookup-Keeps query found t

    resolve_and_serve-Keeps :
        (query : QueryContext) → Keeps (resolve_and_serve dns moka names h clock request query)
    unfolding resolve_and_serve
    resolve_and_serve-Keeps query s =
        let m = resolve_and_cache dns moka h.config clock.resolved query.name query.qtype in
        resume_with-Kept s (m s).1 (m s).0 _
          (resolve_and_cache-Keeps h.config clock.resolved (query.name, query.qtype) s)
          (serve_answer-Keeps query)

    serve_query-Keeps :
        (query : QueryContext) → Keeps (serve_query dns moka names h clock request query)
    unfolding serve_query serve_records handle_local_records
    serve_query-Keeps query =
        let listed = handle_blocked_request dns moka names h clock request query in
        let stored = handle_cached_response dns moka names h clock request query in
        let asked = resolve_and_serve dns moka names h clock request query in
        let local = handle_local_records dns moka names h clock request query in
        let after_listed = ◌otherwise◌ dns moka names stored asked in
        let after_local = ◌otherwise◌ dns moka names listed after_listed in
        if-Keeps (h.config.disable_ipv6 && query.qtype == aaaa)
          (serve_records dns moka names h clock request [] query ipv6_log)
          (◌otherwise◌ dns moka names local after_local) (respond-Keeps query no_error [] ipv6_log)
          (otherwise-Keeps local after_local
            (serve_local-Keeps query (HashMap.get query.name h.local_records))
            (otherwise-Keeps listed after_listed (handle_blocked_request-Keeps query) (
              otherwise-Keeps stored asked (handle_cached_response-Keeps query)
                (resolve_and_serve-Keeps query))))

    -- A request, answered or not, leaves the pause and the blocklist.
    pub handle_request-Kept :
        (s : Server dns moka) → Kept s (handle_request dns moka names h clock request s).1
    unfolding handle_request count_query
    handle_request-Kept s =
        resume_with-Kept s (count_query dns moka names request s) (get_query_info clock request) _
          (refl, refl) (λ query t. serve_query-Keeps query (count_domain dns moka names query t))

  -- So does the task that refreshes a stale entry.
  pub refresh_stale-Kept :
      (config : Config) (now : ℕ) (key : Key) (s : Server dns moka)
      → Kept s (refresh_stale dns moka names config now key s)
  unfolding refresh_stale
  refresh_stale-Kept config now key s = resolve_and_cache-Keeps config now key s
