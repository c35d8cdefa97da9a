-- ===== src/Server/Handler.antt =====
-- `DnsHandler` of src/server/dns_request_handler.rs: its construction, and the answer to a request.
-- A handler that meets an `expect` or a poisoned lock panics, and leaves what it wrote before.
pub mod Responses
use ad_nope.Prelude.{
  ℕ, Bool, true, false, ◌&&◌, List, [], ◌∷◌, ◌++◌, String, Option, none, some, returns, panics,
  Result, ok, err, ◌==◌, string_eq, if◌then◌else◌,
}
use ad_nope.Prelude.HashMap
use ad_nope.Prelude.HashMap.{HashMap}
use ad_nope.Prelude.Text.{concat}
use ad_nope.Dns.{aaaa, Record, type_eq}
use ad_nope.Config.{Config}
use ad_nope.Engine.State.{AppState, is_blocking_active}
use ad_nope.Stats.{
  StatsCollector, inc_queries, inc_cache_hit, inc_blocked_by_source, inc_client_query,
  inc_client_block, inc_domain_query, inc_domain_block,
}
use ad_nope.Resolver.{Answer}
use ad_nope.Logger
use ad_nope.Logger.{Channel, QueryLogAction, QueryLogEntry, blocked, cached, forwarded, local}
use ad_nope.Server.Action.{Action, pure, ◌>>=◌, resume_with}
use ad_nope.Server.Interfaces.{DnsResolver, CacheLibrary, Key, NameParser}
use ad_nope.Server.Cache.{
  ResponseCode, no_error, nx_domain, serv_fail, Response, Server, resolve_and_cache, check_cache,
}
use ad_nope.Server.Query.{
  QueryContext, LogContext, Request, Clock, Handler, new_handler, get_query_info, blocked_record,
  answers_query, local_log, blocked_log, cached_log, forwarded_log, ipv6_log, log_entry,
}
use ad_nope.Server.Handler.Responses.{
  send_response, log_query, respond, serve_records, count_blocked, respond_blocked, serve_blocked,
}

module _ (dns : DnsResolver) (moka : CacheLibrary) (names : NameParser) where
  -- `new`: the state that the handlers share.
  unfoldable pub new :
      Config
      → StatsCollector
      → List Channel
      → (String → Option ℕ)
      → dns.State
      → AppState
      → Handler × Server dns moka
  new config stats logger blocklist resolver app_state = (
    new_handler names config,
    record {
      stats = stats;
      logger = logger;
      app_state = app_state;
      blocklist = blocklist;
      resolver = resolver;
      cache = moka.build config.cache.capacity;
      spawned = [];
      sent = [];
    },
  )

  unfoldable pub update_blocklist : (String → Option ℕ) → Server dns moka → Server dns moka
  update_blocklist new_blocklist s = record s { blocklist = new_blocklist }

  unfoldable pub check_blocklist : String → Server dns moka → Option ℕ
  check_blocklist name s = s.blocklist name

  -- `Ok(m.await)`: the request is handled.
  abbrev pub handled :
      Action (Server dns moka) Response → Action (Server dns moka) (Option Response)
  handled m = m >>= λ info. pure (some info)

  -- The rest of `handle_local_records`, for what the map holds.
  unfoldable pub serve_local :
      Handler
      → Clock
      → Request
      → QueryContext
      → Option (List Record)
      → Action (Server dns moka) (Option Response)
  unfolding serve_records answers_query
  serve_local h clock request query none = pure none
  serve_local h clock request query (some records) =
      if answers_query query.qtype records
      then handled (serve_records dns moka names h clock request records query local_log)
      else pure none

  unfoldable pub handle_local_records :
      Handler → Clock → Request → QueryContext → Action (Server dns moka) (Option Response)
  unfolding serve_local
  handle_local_records h clock request query =
      serve_local h clock request query (HashMap.get query.name h.local_records)

  -- The end of `handle_blocked_request`, for what the blocklist answers.
  unfoldable pub serve_listed :
      Handler
      → Clock
      → Request
      → QueryContext
      → Option ℕ
      → Action (Server dns moka) (Option Response)
  unfolding serve_blocked
  serve_listed h clock request query none = pure none
  serve_listed h clock request query (some source_id) =
      handled (serve_blocked dns moka names h clock request query source_id)

  unfoldable pub handle_listed :
      Handler → Clock → Request → QueryContext → Bool → Action (Server dns moka) (Option Response)
  unfolding serve_listed check_blocklist
  handle_listed h clock request query false s = (returns none, s)
  handle_listed h clock request query true s =
      serve_listed h clock request query (check_blocklist query.name s) s

  unfoldable pub handle_blocked_request :
      Handler → Clock → Request → QueryContext → Action (Server dns moka) (Option Response)
  unfolding handle_listed
  handle_blocked_request h clock request query s =
      resume_with (is_blocking_active s.app_state clock.pause_check) s
        (handle_listed h clock request query)

  -- A hit of the cache; a stale one spawns a task that resolves the query again.
  unfoldable pub serve_cached :
      Handler
      → Clock
      → Request
      → QueryContext
      → List Record
      → Bool
      → Option ℕ
      → Action (Server dns moka) Response
  unfolding serve_records
  serve_cached h clock request query records is_stale ttl s =
      serve_records dns moka names h clock request records query (cached_log ttl) (record s {
        stats = inc_cache_hit s.stats;
        spawned = if is_stale then s.spawned ++ ((query.name, query.qtype) ∷ []) else s.spawned;
      })

  unfoldable pub after_lookup :
      Handler
      → Clock
      → Request
      → QueryContext
      → Option (List Record × Bool × Option ℕ)
      → Action (Server dns moka) (Option Response)
  unfolding serve_cached
  after_lookup h clock request query none = pure none
  after_lookup h clock request query (some (records, is_stale, ttl)) =
      handled (serve_cached h clock request query records is_stale ttl)

  unfoldable pub handle_cached_response :
      Handler → Clock → Request → QueryContext → Action (Server dns moka) (Option Response)
  unfolding after_lookup check_cache
  handle_cached_response h clock request query s =
      let (found, s') = check_cache dns moka clock.cache_check query.name query.qtype s in
      after_lookup h clock request query found s'

  unfoldable pub serve_answer :
      Handler → Clock → Request → QueryContext → Result Answer → Action (Server dns moka) Response
  unfolding serve_records respond
  serve_answer h clock request query (ok (records, upstream)) =
      serve_records dns moka names h clock request records query (forwarded_log upstream)
  serve_answer h clock request query (err e) =
      respond dns moka names h clock request serv_fail [] query (forwarded_log (concat "error: " e))

  unfoldable pub resolve_and_serve :
      Handler → Clock → Request → QueryContext → Action (Server dns moka) Response
  unfolding serve_answer resolve_and_cache
  resolve_and_serve h clock request query =
      resolve_and_cache dns moka h.config clock.resolved query.name query.qtype
      >>= serve_answer h clock request query

  -- `match m.await { Ok(info) => return info, Err(handle) => handle }`
  abbrev pub or_return :
      Option Response → Action (Server dns moka) Response → Action (Server dns moka) Response
  or_return (some info) n = pure info
  or_return none n = n

  infixr 4 ◌otherwise◌
  abbrev pub ◌otherwise◌ :
      Action (Server dns moka) (Option Response)
      → Action (Server dns moka) Response
      → Action (Server dns moka) Response
  m otherwise n = m >>= λ r. or_return r n

  unfoldable pub serve_query :
      Handler → Clock → Request → QueryContext → Action (Server dns moka) Response
  unfolding handle_local_records handle_blocked_request handle_cached_response resolve_and_serve
  serve_query h clock request query =
      if h.config.disable_ipv6 && query.qtype == aaaa
      then serve_records dns moka names h clock request [] query ipv6_log
      else handle_local_records h clock request query
        otherwise handle_blocked_request h clock request query
        otherwise handle_cached_response h clock request query
        otherwise resolve_and_serve h clock request query

  unfoldable pub count_query : Request → Server dns moka → Server dns moka
  count_query request s = record s { stats = inc_client_query (inc_queries s.stats) request.src }

  unfoldable pub count_domain : QueryContext → Server dns moka → Server dns moka
  count_domain query s = record s { stats = inc_domain_query s.stats query.name }

  unfoldable pub handle_request : Handler → Clock → Request → Action (Server dns moka) Response
  unfolding count_query count_domain serve_query get_query_info
  handle_request h clock request s =
      resume_with (get_query_info clock request) (count_query request s)
        (λ query s'. serve_query h clock request query (count_domain query s'))

  -- The task that a stale hit spawned drops the result.
  unfoldable pub refresh_stale : Config → ℕ → Key → Server dns moka → Server dns moka
  unfolding resolve_and_cache
  refresh_stale config now key s = (resolve_and_cache dns moka config now key.0 key.1 s).1
