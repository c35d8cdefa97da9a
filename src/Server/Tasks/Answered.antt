-- ===== src/Server/Tasks/Answered.antt =====
-- Every request of src/server/dns_request_handler.rs is answered, in whatever order the tasks run.
use ad_nope.Prelude.{
  ℕ, suc, ◌≤◌, ◌≡◌, ◌≢◌, refl, ap, sym, ◌∙◌, Bool, true, false, List, [], ◌∷◌, String, some,
  returns, Result, ◌==◌, string_eq, if◌then◌else◌, arith, get_elem?, nat_eq,
}
use mathlib.Core.Path.{subst}
use ad_nope.Dns.{RecordType, type_eq}
use ad_nope.Engine.State.{AppState}
use ad_nope.Engine.State.Pause.{pause_blocking-safe, resume_blocking-safe}
use ad_nope.Resolver.{Answer}
use ad_nope.Server.Interfaces.{DnsResolver, CacheLibrary, NameParser}
use ad_nope.Server.Cache.{Response, Server}
use ad_nope.Server.Expiry.{HasU32, latest_end}
use ad_nope.Server.Query.{Request, Clock, Handler}
use ad_nope.Server.Handler.{update_blocklist}
use ad_nope.Stats.{StatsCollector}
use ad_nope.Server.Tasks.{Pc, received, done, advance}
use ad_nope.Server.Tasks.System
use ad_nope.Server.Tasks.System.{
  Stage, asking, inserting, over, Task, serving, refreshing, Turn, turn, changed, paused, resumed,
  task_step, run_at, step, run,
}
use ad_nope.Server.Tasks.Progress.{IsLive, ended, advance-IsLive}
use ad_nope.Server.Tasks.Turns.{
  turns_of, Fits, run_at-app_state, get_elem?-run_at, get_elem?-run_at_ne,
}

module _ (dns : DnsResolver) (moka : CacheLibrary) (names : NameParser) where
  module _
      (responsive : (state : dns.State) (stats : StatsCollector) (name : String)
          (qtype : RecordType)
        → (r : Result Answer) × ((dns.resolve state stats name qtype).0 ≡ returns r) × HasU32 r)
      (max_instant : ℕ) (h : Handler) (clock : Clock) (request : Request) (name : String)
      (qtype : RecordType) (has_query : request.query ≡ some (name, qtype))
      (deliverable : request.deliverable ≡ true)
      (room : latest_end h.config clock.resolved ≤ moka.max_instant) (i : ℕ) where
    -- The lock is not poisoned, and the task at the place is live.
    record IsAt (n : ℕ) (sys : System.System dns moka names) : Type 0 where
      safe : sys.server.app_state.poisoned ≡ false
      pc : Pc
      placed : get_elem? sys.tasks i ≡ some (serving clock request pc)
      live : IsLive n pc

    own-IsAt :
        (n : ℕ) (sys : System.System dns moka names)
        → IsAt (suc n) sys
        → IsAt n (step dns moka names max_instant h sys (turn i))
    unfolding step task_step
    own-IsAt n sys a = record {
      safe =
          ap (λ (x : AppState). x.poisoned)
            (run_at-app_state dns moka names max_instant h i sys.tasks sys.server)
          ∙ a.safe;
      pc = (advance dns moka names h clock request a.pc sys.server).0;
      placed =
          get_elem?-run_at dns moka names max_instant h i sys.tasks sys.server
            (serving clock request a.pc) a.placed;
      live =
          advance-IsLive dns moka names responsive h clock request name qtype has_query deliverable
            room a.pc n sys.server a.safe a.live;
    }

    other-IsAt :
        (n j : ℕ) (sys : System.System dns moka names)
        → j ≢ i
        → IsAt n sys
        → IsAt n (step dns moka names max_instant h sys (turn j))
    unfolding step
    other-IsAt n j sys ne a = record {
      safe =
          ap (λ (x : AppState). x.poisoned)
            (run_at-app_state dns moka names max_instant h j sys.tasks sys.server)
          ∙ a.safe;
      pc = a.pc;
      placed =
          get_elem?-run_at_ne dns moka names max_instant h i j sys.tasks sys.server ne ∙ a.placed;
      live = a.live;
    }

    turn-IsAt :
        (b : Bool) (n j : ℕ) (sys : System.System dns moka names)
        → b ≡ (j == i)
        → IsAt (if b then suc n else n) sys
        → IsAt n (step dns moka names max_instant h sys (turn j))
    turn-IsAt true n j sys e a =
        let same : j ≡ i = ground arith in
        subst (λ k. IsAt n (step dns moka names max_instant h sys (turn k))) (sym same)
          (own-IsAt n sys a)
    turn-IsAt false n j sys e a = let ne : j ≢ i = ground arith in other-IsAt n j sys ne a

    -- A change of the shared state that leaves the lock as it is.
    kept-IsAt :
        (n : ℕ) (sys : System.System dns moka names) (s : Server dns moka)
        → s.app_state.poisoned ≡ false
        → IsAt n sys
        → IsAt n (record sys { server = s })
    kept-IsAt n sys s safe a = record { safe = safe; pc = a.pc; placed = a.placed; live = a.live }

    run-IsAt :
        (turns : List Turn) (sys : System.System dns moka names)
        → Fits max_instant turns
        → IsAt (turns_of i turns) sys
        → IsAt 0 (run dns moka names max_instant h sys turns)
    unfolding run update_blocklist
    run-IsAt [] sys fits a = a
    run-IsAt (turn j ∷ ts) sys fits a =
        run-IsAt ts (step dns moka names max_instant h sys (turn j)) fits
          (turn-IsAt (j == i) (turns_of i ts) j sys refl a)
    run-IsAt (changed blocklist ∷ ts) sys fits a =
        run-IsAt ts (step dns moka names max_instant h sys (changed blocklist)) fits
          (kept-IsAt _ sys _ a.safe a)
    run-IsAt (paused now duration ∷ ts) sys (fit, fits) a =
        run-IsAt ts (step dns moka names max_instant h sys (paused now duration)) fits (
          kept-IsAt _ sys _
            (pause_blocking-safe max_instant now duration sys.server.app_state a.safe fit) a)
    run-IsAt (resumed ∷ ts) sys fits a =
        run-IsAt ts (step dns moka names max_instant h sys resumed) fits
          (kept-IsAt _ sys _ (resume_blocking-safe sys.server.app_state a.safe) a)

    -- Where the resolver returns, an error or records whose times to live are 32-bit numbers, the lock is
    -- not poisoned, no pause reaches past the last instant, and the platform's last instant is no
    -- earlier than the end of the configured grace of an answer that is kept for 2^32 - 1 seconds, or
    -- for the configured minimum time to live if that is longer: a request with a query whose response can be sent is at its end, with a response, as soon as it has
    -- had nine turns, whatever other requests, background tasks, changes of the blocklist and pauses
    -- come between them.
    pub run-answered :
        (turns : List Turn) (sys : System.System dns moka names)
        → sys.server.app_state.poisoned ≡ false
        → Fits max_instant turns
        → get_elem? sys.tasks i ≡ some (serving clock request received)
        → 9 ≤ turns_of i turns
        → (info : Response) × (get_elem? (run dns moka names max_instant h sys turns).tasks i
            ≡ some (serving clock request (done info)))
    run-answered turns sys safe fits placed enough =
        let a =
          run-IsAt turns sys fits
            (record { safe = safe; pc = received; placed = placed; live = (refl, enough, tt) }) in
        let (info, e) = ended a.pc a.live in
        (info, a.placed ∙ ap (λ pc. some (serving clock request pc)) e)
