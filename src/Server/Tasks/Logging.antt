-- ===== src/Server/Tasks/Logging.antt =====
-- Which entries the tasks of src/server/dns_request_handler.rs log, in whatever order they run.
use ad_nope.Prelude.{
  ℕ, zero, suc, ◌+◌, ◌≡◌, ◌⊎◌, refl, ap, sym, ◌∙◌, Bool, true, false, ◌&&◌, List, [], ◌∷◌, ◌++◌,
  Option, none, some, inl, inr, Outcome, returns, panics, Result, ok, err, length, length-append,
  ◌==◌, string_eq, if◌then◌else◌, arith,
}
use ad_nope.Prelude.HashMap
use ad_nope.Dns.{aaaa, Record, type_eq}
use ad_nope.Engine.State.{is_blocking_active}
use ad_nope.Logger
use ad_nope.Logger.{Channel, QueryLogEntry}
use ad_nope.Resolver.{Answer}
use ad_nope.Server.Interfaces.{DnsResolver, CacheLibrary, NameParser, Key}
use ad_nope.Server.Cache.{Response, Server, check_cache, cache_answer}
use ad_nope.Server.Caching.{cache_answer-IsStored}
use ad_nope.Server.Query.{
  QueryContext, LogContext, Request, Clock, Handler, get_query_info, blocked_record, answers_query,
  log_entry,
}
use ad_nope.Server.Handler.{count_query, count_domain, check_blocklist, update_blocklist}
use ad_nope.Server.Handler.Responses.{log_query, count_blocked}
use ad_nope.Server.Tasks.{
  Pc, received, named, unanswered, active, unblocked, missed, resolved, answering, sent, done,
  panicked, after_info, after_local, after_pause, blocked_with, after_blocklist, after_cache,
  after_resolver, answered_with, sending, advance,
}
use ad_nope.Server.Tasks.System
use ad_nope.Server.Tasks.System.{
  Stage, asking, inserting, over, Task, serving, refreshing, Turn, turn, changed, paused, resumed,
  task_step, run_at, step, run,
}

-- Whether a request is at its end with a response.
abbrev has_ended : Pc → ℕ
has_ended (done info) = 1
has_ended _ = 0

abbrev ended_task : Task → ℕ
ended_task (serving clock request pc) = has_ended pc
ended_task (refreshing now key stage) = 0

-- The requests that are at their end with a response.
abbrev pub ended_tasks : List Task → ℕ
ended_tasks [] = 0
ended_tasks (t ∷ ts) = ended_task t + ended_tasks ts

-- The entries are logged one after the other, if the logging is on.
abbrev pub log_each : Bool → List QueryLogEntry → List Channel → List Channel
log_each enabled [] channels = channels
log_each enabled (e ∷ es) channels =
    log_each enabled es (if enabled then Logger.log e channels else channels)

log_each-++ :
    (enabled : Bool) (es fs : List QueryLogEntry) (channels : List Channel)
    → log_each enabled (es ++ fs) channels ≡ log_each enabled fs (log_each enabled es channels)
log_each-++ enabled [] fs channels = refl
log_each-++ enabled (e ∷ es) fs channels = log_each-++ enabled es fs _

module _ (dns : DnsResolver) (moka : CacheLibrary) (names : NameParser) (h : Handler) where
  -- A step logs nothing and ends no request, or it logs an entry and ends one.
  abbrev Logs : ℕ → Server dns moka → ℕ × Server dns moka → Type 0
  Logs before s o =
      ((o.1.logger ≡ s.logger) × (o.0 ≡ before))
      ⊎ ((e : QueryLogEntry) × (o.1.logger
            ≡ (if h.config.logging.enable then Logger.log e s.logger else s.logger))
          × (o.0 ≡ suc before))

  abbrev seen : Pc × Server dns moka → ℕ × Server dns moka
  seen p = (has_ended p.0, p.1)

  cache_answer-logger :
      (now : ℕ) (key : Key) (r : Result Answer) (s : Server dns moka)
      → (cache_answer dns moka h.config now key r s).1.logger ≡ s.logger
  cache_answer-logger now key r s =
      ap (λ (t : Server dns moka). t.logger) (cache_answer-IsStored dns moka h.config now key r s).1

  module _ (clock : Clock) (request : Request) where
    after_info-Logs :
        (o : Outcome QueryContext) (s : Server dns moka)
        → Logs 0 s (seen (after_info dns moka names h clock request o s))
    unfolding count_domain
    after_info-Logs panics s = inl (refl, refl)
    after_info-Logs (returns query) s = inl (refl, refl)

    module _ (query : QueryContext) where
      if-zero :
          (b : Bool) (p q : Pc)
          → has_ended p ≡ 0
          → has_ended q ≡ 0
          → has_ended (if b then p else q) ≡ 0
      if-zero true p q a b = a
      if-zero false p q a b = b

      after_local-zero :
          (found : Option (List Record))
          → has_ended (after_local dns moka names h clock request query found) ≡ 0
      after_local-zero none = refl
      after_local-zero (some records) = if-zero (answers_query query.qtype records) _ _ refl refl

      after_pause-zero :
          (o : Outcome Bool) → has_ended (after_pause dns moka names h clock request query o) ≡ 0
      after_pause-zero panics = refl
      after_pause-zero (returns true) = refl
      after_pause-zero (returns false) = refl

      blocked_with-zero :
          (log : LogContext) (made : Option Record)
          → has_ended (blocked_with dns moka names h clock request query log made) ≡ 0
      blocked_with-zero log none = refl
      blocked_with-zero log (some r) = refl

      after_blocklist-Logs :
          (listed : Option ℕ) (s : Server dns moka)
          → Logs 0 s (seen (after_blocklist dns moka names h clock request query listed s))
      unfolding count_blocked
      after_blocklist-Logs none s = inl (refl, refl)
      after_blocklist-Logs (some source_id) s =
          inl (refl, blocked_with-zero _ (blocked_record names query))

      after_cache-Logs :
          (found : Option (List Record × Bool × Option ℕ)) (s t : Server dns moka)
          → t.logger ≡ s.logger
          → Logs 0 s (seen (after_cache dns moka names h clock request query found t))
      after_cache-Logs none s t same = inl (same, refl)
      after_cache-Logs (some (records, is_stale, ttl)) s t same = inl (same, refl)

      after_resolver-zero :
          (o : Outcome (Result Answer))
          → has_ended (after_resolver dns moka names h clock request query o) ≡ 0
      after_resolver-zero panics = refl
      after_resolver-zero (returns r) = refl

      answered_with-zero :
          (r : Outcome (Result Answer))
          → has_ended (answered_with dns moka names h clock request query r) ≡ 0
      answered_with-zero panics = refl
      answered_with-zero (returns (ok (records, upstream))) = refl
      answered_with-zero (returns (err e)) = refl

      sending-Logs :
          (deliverable : Bool) (log : LogContext) (info : Response) (s : Server dns moka)
          → Logs 0 s (seen (sending dns moka names h clock request deliverable query log info s))
      sending-Logs true log info s = inl (refl, refl)
      sending-Logs false log info s = inl (refl, refl)

      log_query-logger :
          (log : LogContext) (s : Server dns moka)
          → (log_query dns moka names h clock request query log s).logger ≡ (
              if h.config.logging.enable
              then Logger.log (log_entry clock request query log) s.logger
              else s.logger)
      unfolding log_query
      log_query-logger log s = ground arith

    advance-Logs :
        (pc : Pc) (s : Server dns moka)
        → Logs (has_ended pc) s (seen (advance dns moka names h clock request pc s))
    unfolding advance count_query check_cache
    advance-Logs received s =
        after_info-Logs (get_query_info clock request) (count_query dns moka names request s)
    advance-Logs (named query) s = inl (
      refl,
      if-zero query (h.config.disable_ipv6 && query.qtype == aaaa) _ _ refl
          (after_local-zero query (HashMap.get query.name h.local_records)),
    )
    advance-Logs (unanswered query) s =
        inl (refl, after_pause-zero query (is_blocking_active s.app_state clock.pause_check))
    advance-Logs (active query) s =
        after_blocklist-Logs query (check_blocklist dns moka names query.name s) s
    advance-Logs (unblocked query) s = after_cache-Logs query _ s _ refl
    advance-Logs (missed query) s = inl (refl, after_resolver-zero query _)
    advance-Logs (resolved query r) s = inl (
      cache_answer-logger clock.resolved (query.name, query.qtype) r s,
      answered_with-zero query _,
    )
    advance-Logs (answering query code records log) s =
        sending-Logs query request.deliverable log _ s
    advance-Logs (sent query log info) s =
        inr (log_entry clock request query log, log_query-logger query log s, refl)
    advance-Logs (done info) s = inl (refl, refl)
    advance-Logs panicked s = inl (refl, refl)

  module _ (max_instant : ℕ) where
    refresh-logger :
        (now : ℕ) (key : Key) (stage : Stage) (s : Server dns moka)
        → (System.refresh_step dns moka names max_instant h now key stage s).1.logger ≡ s.logger
    refresh-logger now key asking s = refl
    refresh-logger now key (inserting r) s = cache_answer-logger now key r s
    refresh-logger now key over s = refl

    task_step-Logs :
        (t : Task) (s : Server dns moka)
        → Logs (ended_task t) s (
          ended_task (task_step dns moka names max_instant h t s).0,
          (task_step dns moka names max_instant h t s).1,
        )
    unfolding task_step
    task_step-Logs (serving clock request pc) s = advance-Logs clock request pc s
    task_step-Logs (refreshing now key stage) s = inl (refresh-logger now key stage s, refl)

    -- Some entries were logged, and as many requests have come to their end with a response.
    abbrev pub Logged : ℕ → Server dns moka → ℕ × Server dns moka → Type 0
    Logged before s o =
        (es : List QueryLogEntry) × (o.1.logger ≡ log_each h.config.logging.enable es s.logger)
        × (o.0 ≡ length es + before)

    at_head :
        (before rest : ℕ) (s : Server dns moka) (o : ℕ × Server dns moka)
        → Logs before s o
        → Logged (before + rest) s (o.0 + rest, o.1)
    at_head before rest s o (inl (same, kept)) = ([], same, omega arith)
    at_head before rest s o (inr (e, more, one)) = (e ∷ [], more, omega arith)

    run_at-Logged :
        (i : ℕ) (ts : List Task) (s : Server dns moka)
        → Logged (ended_tasks ts) s (
          ended_tasks (run_at dns moka names max_instant h i ts s).0,
          (run_at dns moka names max_instant h i ts s).1,
        )
    unfolding run_at
    run_at-Logged i [] s = ([], refl, omega arith)
    run_at-Logged zero (t ∷ ts) s =
        at_head (ended_task t) (ended_tasks ts) s
          (
            ended_task (task_step dns moka names max_instant h t s).0,
            (task_step dns moka names max_instant h t s).1,
          )
          (task_step-Logs t s)
    run_at-Logged (suc i) (t ∷ ts) s = let (es, e, n) = run_at-Logged i ts s in (es, e, omega arith)

    -- Over any turns in any order, of requests, of background tasks, of changes of the blocklist and of
    -- pauses: if the logging is on, the loggers were given one entry after the other, as many as
    -- requests have come to their end with a response since; if it is off, they are as they were.
    pub run-Logged :
        (turns : List Turn) (sys : System.System dns moka names)
        → Logged (ended_tasks sys.tasks) sys.server (
          ended_tasks (run dns moka names max_instant h sys turns).tasks,
          (run dns moka names max_instant h sys turns).server,
        )
    unfolding run step update_blocklist
    run-Logged [] sys = ([], refl, omega arith)
    run-Logged (turn i ∷ turns) sys =
        let (es, e, n) = run_at-Logged i sys.tasks sys.server in
        let (fs, f, m) = run-Logged turns (step dns moka names max_instant h sys (turn i)) in
        let both = length-append es fs in
        (
          es ++ fs,
          f
              ∙ ap (log_each h.config.logging.enable fs) e
              ∙ sym (log_each-++ h.config.logging.enable es fs sys.server.logger),
          omega arith,
        )
    run-Logged (changed blocklist ∷ turns) sys =
        run-Logged turns (step dns moka names max_instant h sys (changed blocklist))
    run-Logged (paused now duration ∷ turns) sys =
        run-Logged turns (step dns moka names max_instant h sys (paused now duration))
    run-Logged (resumed ∷ turns) sys =
        run-Logged turns (step dns moka names max_instant h sys resumed)
