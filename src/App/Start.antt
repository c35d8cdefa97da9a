-- ===== src/App/Start.antt =====
-- `main` of src/main.rs from the first refresh to the handler, and what then happens to the handler:
-- requests, refreshes of stale entries and of the blocklists, and the commands of the API.
use ad_nope.Prelude.{ℕ, ◌≡◌, refl, String, Option, List, [], ◌∷◌, Result, ok, err}
use ad_nope.Config.{Config}
use ad_nope.Engine.Matcher.{check}
use ad_nope.Engine.Blocklist
use ad_nope.Engine.State
use ad_nope.Logger.{Channel}
use ad_nope.Stats.{StatsCollector}
use ad_nope.Resolver.Create.{Environment, Resolver, create_resolver}
use ad_nope.Resolver.Startup.{create_resolver-upstreams_of}
use ad_nope.Server.Interfaces.{CacheLibrary, NameParser, Key}
use ad_nope.Server.Cache.{Server}
use ad_nope.Server.Query.{Request, Clock, Handler}
use ad_nope.Server.Handler.{new, handle_request, update_blocklist, refresh_stale}
use ad_nope.Server.Upstreams.{Network, Working, policy_resolver}

-- What a refresh meets: the responses, and the order in which the downloads complete.
pub record Downloads : Type 0 where
  pub http : String → Blocklist.Response
  pub schedule : List ℕ

-- The matcher that `manager.refresh` makes.
abbrev pub matcher_of : (String → String) → Config → Downloads → String → Option ℕ
matcher_of to_lowercase config d = check (Blocklist.refresh to_lowercase d.http d.schedule config)

abbrev pub working :
    (env : Environment) (config : Config) (r : Resolver)
    → create_resolver env config ≡ ok r
    → Working
working env config r e = (r, (create_resolver-upstreams_of env config r e).0)

-- What happens to the running server; the pauses come with the instant of the call.
pub data Event : Type 0 where
  serve : Clock → Request → Event
  refresh_entry : ℕ → Key → Event
  update : Downloads → Event
  pause : ℕ → ℕ → Event
  resume : Event

module _ (env : Environment) (net : Network) (moka : CacheLibrary) (names : NameParser)
    (to_lowercase : String → String) where
  -- The server of this program.
  abbrev pub AppServer : Type 0
  AppServer = Server (policy_resolver net) moka

  module _ (config : Config) (stats : StatsCollector) (logger : List Channel) (d : Downloads)
      (state : net.State) where
    -- The rest of `main`, for the resolver that was created: `?` returns its error.
    abbrev pub with_resolver :
        (x : Result Resolver) → create_resolver env config ≡ x → Result (Handler × AppServer)
    with_resolver (err e) created = err e
    with_resolver (ok r) created = ok (
        new (policy_resolver net) moka names config stats logger (matcher_of to_lowercase config d)
          (working env config r created, state) State.new)

    unfoldable pub start : Result (Handler × AppServer)
    unfolding new State.new
    start = with_resolver (create_resolver env config) refl

  -- A round of the updater, whose manager has the configuration of the handler.
  unfoldable pub update_round : Handler → Downloads → AppServer → AppServer
  unfolding update_blocklist
  update_round h d s =
      update_blocklist (policy_resolver net) moka names (matcher_of to_lowercase h.config d) s

  module _ (max_instant : ℕ) (h : Handler) where
    -- A request, a background task, a round of the updater, or a handler of the API.
    unfoldable pub step : AppServer → Event → AppServer
    unfolding update_round
    step s (serve clock request) =
        (handle_request (policy_resolver net) moka names h clock request s).1
    step s (refresh_entry now key) =
        refresh_stale (policy_resolver net) moka names h.config now key s
    step s (update d) = update_round h d s
    step s (pause now duration) = record s {
      app_state = (State.pause_blocking max_instant s.app_state now duration).1;
    }
    step s resume = record s { app_state = (State.resume_blocking s.app_state).1 }

    unfoldable pub run : AppServer → List Event → AppServer
    run s [] = s
    run s (e ∷ es) = run (step s e) es
