-- ===== src/Server/Tasks/System.antt =====
-- Tasks of src/server/dns_request_handler.rs and what else acts on the state that they share, one
-- access after the other in any order.
use ad_nope.Prelude.{ℕ, zero, suc, List, [], ◌∷◌, String, Option, Outcome, returns, panics, Result}
use ad_nope.Engine.State
use ad_nope.Resolver.{Answer}
use ad_nope.Server.Interfaces.{DnsResolver, CacheLibrary, NameParser, Key}
use ad_nope.Server.Cache.{Server, cache_answer}
use ad_nope.Server.Query.{Request, Clock, Handler}
use ad_nope.Server.Handler.{update_blocklist}
use ad_nope.Server.Tasks.{Pc, advance}

-- Where the background task of a stale entry stands: before the resolver, before the insertion of what
-- it answered, and at its end.
pub data Stage : Type 0 where
  asking : Stage
  inserting : Result Answer → Stage
  over : Stage

-- A request with the instants that it will read, or the background task of a stale entry.
pub data Task : Type 0 where
  serving : Clock → Request → Pc → Task
  refreshing : ℕ → Key → Stage → Task

-- The turn of a task, a change of the blocklist, or a command over the API.
pub data Turn : Type 0 where
  turn : ℕ → Turn
  changed : (String → Option ℕ) → Turn
  paused : ℕ → ℕ → Turn
  resumed : Turn

module _ (dns : DnsResolver) (moka : CacheLibrary) (names : NameParser) where
  pub record System : Type 0 where
    pub tasks : List Task
    pub server : Server dns moka

  module _ (max_instant : ℕ) (h : Handler) where
    abbrev pub after_asking : Outcome (Result Answer) → Stage
    after_asking panics = over
    after_asking (returns r) = inserting r

    -- The spawned `resolve_and_cache`, whose result is dropped.
    abbrev pub refresh_step : ℕ → Key → Stage → Server dns moka → Stage × Server dns moka
    refresh_step now key asking s =
        let (o, state, stats) = dns.resolve s.resolver s.stats key.0 key.1 in
        (after_asking o, record s { resolver = state; stats = stats })
    refresh_step now key (inserting r) s = (over, (cache_answer dns moka h.config now key r s).1)
    refresh_step now key over s = (over, s)

    unfoldable pub task_step : Task → Server dns moka → Task × Server dns moka
    unfolding advance cache_answer
    task_step (serving clock request pc) s =
        let (pc', s') = advance dns moka names h clock request pc s in
        (serving clock request pc', s')
    task_step (refreshing now key stage) s =
        let (stage', s') = refresh_step now key stage s in (refreshing now key stage', s')

    -- The turn of the task at a place of the list, if there is one.
    unfoldable pub run_at : ℕ → List Task → Server dns moka → List Task × Server dns moka
    unfolding task_step
    run_at i [] s = ([], s)
    run_at zero (t ∷ ts) s = let (t', s') = task_step t s in (t' ∷ ts, s')
    run_at (suc i) (t ∷ ts) s = let (ts', s') = run_at i ts s in (t ∷ ts', s')

    unfoldable pub step : System → Turn → System
    unfolding run_at State.pause_blocking State.resume_blocking update_blocklist
    step sys (turn i) =
        let (tasks, server) = run_at i sys.tasks sys.server in
        record { tasks = tasks; server = server }
    step sys (changed blocklist) = record sys {
      server = update_blocklist dns moka names blocklist sys.server;
    }
    step sys (paused now duration) = record sys {
      server = record sys.server {
        app_state = (State.pause_blocking max_instant sys.server.app_state now duration).1;
      };
    }
    step sys resumed = record sys {
      server = record sys.server { app_state = (State.resume_blocking sys.server.app_state).1 };
    }

    unfoldable pub run : System → List Turn → System
    unfolding step
    run sys [] = sys
    run sys (t ∷ ts) = run (step sys t) ts
