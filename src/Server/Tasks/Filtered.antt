-- ===== src/Server/Tasks/Filtered.antt =====
-- With `disable_ipv6`, the tasks of src/server/dns_request_handler.rs send no AAAA record, in whatever
-- order they run.
use mathlib.Core.Path.{subst}
use ad_nope.Prelude.{
  ℕ, zero, suc, ◌≡◌, refl, ap, sym, ◌∙◌, Bool, true, false, ◌&&◌, String, List, [], ◌∷◌, Option,
  none, some, Outcome, returns, panics, Result, ok, err, All, if◌then◌else◌, ◌==◌, string_eq,
  pair_eq,
}
use ad_nope.Prelude.HashMap
use ad_nope.Config.{Config}
use ad_nope.Dns.{aaaa, RData, address4, address6, opaque, Record, type_eq}
use ad_nope.Engine.State.{AppState}
use ad_nope.Logger.{Channel}
use ad_nope.Stats.{StatsCollector}
use ad_nope.Resolver.{Answer}
use ad_nope.Server.Interfaces.{DnsResolver, CacheLibrary, NameParser, Key}
use ad_nope.Server.Cache.{Response, Server, check_cache, cache_answer}
use ad_nope.Server.Query.{
  QueryContext, LogContext, Request, Clock, Handler, new_handler, get_query_info, blocked_data,
  blocked_record, answers_query,
}
use ad_nope.Server.Handler.{new, count_query, count_domain, update_blocklist}
use ad_nope.Server.Handler.Responses.{log_query, count_blocked}
use ad_nope.Server.Filter.{
  HasNoAaaa, IsHeld, IsSingle, local_records_from-IsSingle, answers_query-HasNoAaaa, IsClean-append,
  blocked_answer, not-blocked6,
}
use ad_nope.Server.Filter.Cached.{
  IsFiltered, looked_up, IsHeldAnswer, looked_up-IsHeld, IsHeld-less, cache_answer-IsFiltered,
  cache_answer-IsCleanAnswer, IsCleanAnswer, if-IsFiltered,
}
use ad_nope.Server.Tasks.{
  Pc, received, named, unanswered, active, unblocked, missed, resolved, answering, sent, done,
  panicked, after_info, after_local, after_pause, blocked_with, after_blocklist, after_cache,
  after_resolver, answered_with, sending, advance,
}
use ad_nope.Server.Tasks.System
use ad_nope.Server.Tasks.System.{
  Stage, asking, inserting, over, Task, serving, refreshing, Turn, turn, changed, paused, resumed,
  task_step, run_at, step, run,
}

-- What a task holds at a place: no AAAA record to send, and no query for one from the blocklist on.
abbrev IsClean : Pc → Type 0
IsClean (unanswered query) = (query.qtype == aaaa) ≡ false
IsClean (active query) = (query.qtype == aaaa) ≡ false
IsClean (answering query code records log) = HasNoAaaa records
IsClean _ = Unit

abbrev IsCleanTask : Task → Type 0
IsCleanTask (serving clock request pc) = IsClean pc
IsCleanTask (refreshing now key stage) = Unit

-- A task that has not begun.
abbrev pub IsNew : Task → Type 0
IsNew (serving clock request pc) = pc ≡ received
IsNew (refreshing now key stage) = Unit

module _ (dns : DnsResolver) (moka : CacheLibrary) (names : NameParser) where
  module _ (h : Handler) (filtering : h.config.disable_ipv6 ≡ true)
      (single : (k : String) → IsSingle (HashMap.get k h.local_records)) where
    abbrev Keeps : Pc × Server dns moka → Type 0
    Keeps p = IsFiltered dns moka names p.1 × IsClean p.0

    module _ (clock : Clock) (request : Request) where
      after_info-Keeps :
          (o : Outcome QueryContext) (s : Server dns moka)
          → IsFiltered dns moka names s
          → Keeps (after_info dns moka names h clock request o s)
      unfolding count_domain
      after_info-Keeps panics s i = (i, tt)
      after_info-Keeps (returns query) s i = (record { held = i.held; clean = i.clean }, tt)

      if-IsClean :
          (b : Bool) (p q : Pc)
          → (b ≡ true → IsClean p)
          → (b ≡ false → IsClean q)
          → IsClean (if b then p else q)
      if-IsClean true p q a b = a refl
      if-IsClean false p q a b = b refl

      after_local-IsClean :
          (query : QueryContext) (found : Option (List Record))
          → (query.qtype == aaaa) ≡ false
          → IsSingle found
          → IsClean (after_local dns moka names h clock request query found)
      after_local-IsClean query none ne one = ne
      after_local-IsClean query (some rs) ne one =
          if-IsClean (answers_query query.qtype rs) _ _
            (λ e. answers_query-HasNoAaaa query.qtype rs ne one e) (λ e. ne)

      after_pause-IsClean :
          (query : QueryContext) (o : Outcome Bool)
          → (query.qtype == aaaa) ≡ false
          → IsClean (after_pause dns moka names h clock request query o)
      after_pause-IsClean query panics ne = tt
      after_pause-IsClean query (returns true) ne = ne
      after_pause-IsClean query (returns false) ne = tt

      blocked_with-IsClean :
          (query : QueryContext) (o : Option RData) (log : LogContext)
          → (query.qtype == aaaa) ≡ false
          → o ≡ blocked_data query.qtype
          → IsClean
              (blocked_with dns moka names h clock request query log (blocked_answer names query o))
      blocked_with-IsClean query none log ne e = tt
      blocked_with-IsClean query (some (address4 n)) log ne e = (refl, tt)
      blocked_with-IsClean query (some (address6 n)) log ne e =
          absurd (not-blocked6 query.qtype n e ne)
      blocked_with-IsClean query (some (opaque c n)) log ne e = (refl, tt)

      after_blocklist-Keeps :
          (query : QueryContext) (listed : Option ℕ) (s : Server dns moka)
          → (query.qtype == aaaa) ≡ false
          → IsFiltered dns moka names s
          → Keeps (after_blocklist dns moka names h clock request query listed s)
      unfolding count_blocked blocked_record
      after_blocklist-Keeps query none s ne i = (i, tt)
      after_blocklist-Keeps query (some id) s ne i = (
        record { held = i.held; clean = i.clean },
        blocked_with-IsClean query (blocked_data query.qtype) _ ne refl,
      )

      after_cache-Keeps :
          (query : QueryContext) (found : Option (List Record × Bool × Option ℕ))
          (s : Server dns moka)
          → IsHeldAnswer dns moka names found
          → IsFiltered dns moka names s
          → Keeps (after_cache dns moka names h clock request query found s)
      after_cache-Keeps query none s held i = (i, tt)
      after_cache-Keeps query (some (rs, is_stale, ttl)) s held i =
          (record { held = i.held; clean = i.clean }, held)

      after_resolver-IsClean :
          (query : QueryContext) (o : Outcome (Result Answer))
          → IsClean (after_resolver dns moka names h clock request query o)
      after_resolver-IsClean query panics = tt
      after_resolver-IsClean query (returns r) = tt

      answered_with-IsCleanAnswer :
          (query : QueryContext) (o : Outcome (Result Answer))
          → IsCleanAnswer dns moka names h filtering o
          → IsClean (answered_with dns moka names h clock request query o)
      answered_with-IsCleanAnswer query panics c = tt
      answered_with-IsCleanAnswer query (returns (ok (rs, up))) c = c
      answered_with-IsCleanAnswer query (returns (err e)) c = tt

      answered_with-IsClean :
          (query : QueryContext) (now : ℕ) (key : Key) (r : Result Answer) (s : Server dns moka)
          → IsClean (
              answered_with dns moka names h clock request query
                (cache_answer dns moka h.config now key r s).0)
      answered_with-IsClean query now key r s =
          answered_with-IsCleanAnswer query (cache_answer dns moka h.config now key r s).0
            (cache_answer-IsCleanAnswer dns moka names h filtering now key r s)

      sending-Keeps :
          (query : QueryContext) (deliverable : Bool) (log : LogContext) (info : Response)
          (s : Server dns moka)
          → HasNoAaaa info.answers
          → IsFiltered dns moka names s
          → Keeps (sending dns moka names h clock request deliverable query log info s)
      sending-Keeps query true log info s new i =
          (record { held = i.held; clean = IsClean-append s.sent info i.clean new }, tt)
      sending-Keeps query false log info s new i = (i, tt)

      log_query-IsFiltered :
          (query : QueryContext) (log : LogContext) (s : Server dns moka)
          → IsFiltered dns moka names s
          → IsFiltered dns moka names (log_query dns moka names h clock request query log s)
      unfolding log_query
      log_query-IsFiltered query log s i =
          if-IsFiltered dns moka names h filtering h.config.logging.enable _ s
            (record { held = i.held; clean = i.clean }) i

      advance-Keeps :
          (pc : Pc) (s : Server dns moka)
          → IsFiltered dns moka names s
          → IsClean pc
          → Keeps (advance dns moka names h clock request pc s)
      unfolding advance count_query check_cache
      advance-Keeps received s i c =
          after_info-Keeps (get_query_info clock request) _
            (record { held = i.held; clean = i.clean })
      advance-Keeps (named query) s i c = (
        i,
        if-IsClean (h.config.disable_ipv6 && query.qtype == aaaa) _ _ (λ e. tt)
            (λ e.
              after_local-IsClean query (HashMap.get query.name h.local_records)
                (ap (λ d. d && query.qtype == aaaa) (sym filtering) ∙ e) (single query.name)),
      )
      advance-Keeps (unanswered query) s i c = (i, after_pause-IsClean query _ c)
      advance-Keeps (active query) s i c = after_blocklist-Keeps query _ s c i
      advance-Keeps (unblocked query) s i c =
          let key : Key = (query.name, query.qtype) in
          let (found, store) = moka.get s.cache key in
          after_cache-Keeps query (looked_up dns moka names clock.cache_check found)
            (record s { cache = store })
            (looked_up-IsHeld dns moka names clock.cache_check found (i.held key))
            (record {
              held = λ k.
                  IsHeld-less dns moka names (moka.get store k).0 (moka.get s.cache k).0
                    (moka.get-get s.cache key k) (i.held k);
              clean = i.clean;
            })
      advance-Keeps (missed query) s i c =
          (record { held = i.held; clean = i.clean }, after_resolver-IsClean query _)
      advance-Keeps (resolved query r) s i c = (
        cache_answer-IsFiltered dns moka names h filtering clock.resolved (query.name, query.qtype)
            r s i,
        answered_with-IsClean query clock.resolved (query.name, query.qtype) r s,
      )
      advance-Keeps (answering query code records log) s i c =
          sending-Keeps query request.deliverable log _ s c i
      advance-Keeps (sent query log info) s i c = (log_query-IsFiltered query log s i, tt)
      advance-Keeps (done info) s i c = (i, tt)
      advance-Keeps panicked s i c = (i, tt)

    module _ (max_instant : ℕ) where
      refresh-IsFiltered :
          (now : ℕ) (key : Key) (stage : Stage) (s : Server dns moka)
          → IsFiltered dns moka names s
          → IsFiltered dns moka names
              (System.refresh_step dns moka names max_instant h now key stage s).1
      refresh-IsFiltered now key asking s i = record { held = i.held; clean = i.clean }
      refresh-IsFiltered now key (inserting r) s i =
          cache_answer-IsFiltered dns moka names h filtering now key r s i
      refresh-IsFiltered now key over s i = i

      run_at-Keeps :
          (i : ℕ) (ts : List Task) (s : Server dns moka)
          → IsFiltered dns moka names s
          → All IsCleanTask ts
          → IsFiltered dns moka names (run_at dns moka names max_instant h i ts s).1
            × All IsCleanTask (run_at dns moka names max_instant h i ts s).0
      unfolding run_at task_step
      run_at-Keeps i [] s f c = (f, tt)
      run_at-Keeps zero (serving clock request pc ∷ ts) s f c =
          let (g, d) = advance-Keeps clock request pc s f c.0 in (g, (d, c.1))
      run_at-Keeps zero (refreshing now key stage ∷ ts) s f c =
          (refresh-IsFiltered now key stage s f, (tt, c.1))
      run_at-Keeps (suc i) (t ∷ ts) s f c = let (g, d) = run_at-Keeps i ts s f c.1 in (g, (c.0, d))

      run-Keeps :
          (turns : List Turn) (sys : System.System dns moka names)
          → IsFiltered dns moka names sys.server
          → All IsCleanTask sys.tasks
          → IsFiltered dns moka names (run dns moka names max_instant h sys turns).server
      unfolding run step update_blocklist
      run-Keeps [] sys f c = f
      run-Keeps (turn i ∷ turns) sys f c =
          let (g, d) = run_at-Keeps i sys.tasks sys.server f c in
          run-Keeps turns (step dns moka names max_instant h sys (turn i)) g d
      run-Keeps (changed blocklist ∷ turns) sys f c =
          run-Keeps turns (step dns moka names max_instant h sys (changed blocklist))
            (record { held = f.held; clean = f.clean }) c
      run-Keeps (paused now duration ∷ turns) sys f c =
          run-Keeps turns (step dns moka names max_instant h sys (paused now duration))
            (record { held = f.held; clean = f.clean }) c
      run-Keeps (resumed ∷ turns) sys f c =
          run-Keeps turns (step dns moka names max_instant h sys resumed)
            (record { held = f.held; clean = f.clean }) c

  new-IsCleanTask : (ts : List Task) → All IsNew ts → All IsCleanTask ts
  new-IsCleanTask [] h = tt
  new-IsCleanTask (serving clock request pc ∷ ts) (e, h) =
      (subst IsClean (sym e) tt, new-IsCleanTask ts h)
  new-IsCleanTask (refreshing now key stage ∷ ts) (e, h) = (tt, new-IsCleanTask ts h)

  -- With `disable_ipv6`, no response that a new server sends has an AAAA record, whatever the resolver
  -- answers, and in whatever order the accesses of any requests and background tasks, changes of the
  -- blocklist and pauses come.
  pub tasks-HasNoAaaa :
      (config : Config) (stats : StatsCollector) (logger : List Channel)
      (blocklist : String → Option ℕ) (resolver : dns.State) (app_state : AppState)
      (max_instant : ℕ) (tasks : List Task) (turns : List Turn)
      → config.disable_ipv6 ≡ true
      → All IsNew tasks
      → All
          (λ r. HasNoAaaa r.answers)
          (run dns moka names max_instant
            (new dns moka names config stats logger blocklist resolver app_state).0
            (record {
              tasks = tasks;
              server = (new dns moka names config stats logger blocklist resolver app_state).1;
            })
            turns).server.sent
  unfolding new new_handler
  tasks-HasNoAaaa config stats logger blocklist resolver app_state max_instant tasks turns filtering
        fresh =
      let (h, s) = new dns moka names config stats logger blocklist resolver app_state in
      let i =
        run-Keeps h filtering
          (λ k.
            local_records_from-IsSingle names config.cache.min_ttl config.local_records [] k
              (subst IsSingle (sym (HashMap.get-nil k)) tt))
          max_instant turns (record { tasks = tasks; server = s })
          (record {
            held = λ k. subst IsHeld (sym (moka.get-build config.cache.capacity k)) tt;
            clean = tt;
          })
          (new-IsCleanTask tasks fresh) in
      i.clean
