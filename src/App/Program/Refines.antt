-- ===== src/App/Program/Refines.antt =====
-- The program of src/main.rs seen from the DNS server, and seen from the updater.
use ad_nope.Prelude.{
  ℕ, ◌<◌, ◌≡◌, refl, ap, sym, ◌∙◌, Bool, true, false, String, Option, List, [], ◌∷◌, ◌++◌,
  if◌then◌else◌,
}
use mathlib.Core.Path.{subst}
use ad_nope.Prelude.Words.{u64_mod}
use ad_nope.Engine.State.{from_secs}
use ad_nope.Engine.State.Pause
use ad_nope.Engine.State.Pause.{Command}
use ad_nope.Server.Query.{Handler}
use ad_nope.Api.{RefreshChannel, send}
use ad_nope.Api.Commands.{commands_of}
use ad_nope.Api.Status.{handle-engine}
use ad_nope.Api.Channel.{triggers_at, handle-channel}
use ad_nope.App.Start
use ad_nope.App.Start.{AppServer, Downloads, serve, refresh_entry, update, pause, resume}
use ad_nope.App.Running
use ad_nope.App.Updater
use ad_nope.App.Updater.{triggered, scheduled, forced, on_trigger}
use ad_nope.App.Program.{
  World, Program, Happening, query, stale, called, ticked, received, updated, api_state, call,
  on_query, on_stale, on_call, on_tick, on_message, on_update, Runs, done, next,
}

-- What a command does to the server.
abbrev pub command_events : List Command → List Start.Event
command_events [] = []
command_events (Command.pause now duration ∷ cs) = pause now duration ∷ command_events cs
command_events (Command.resume ∷ cs) = resume ∷ command_events cs

-- What the server sees.
abbrev pub server_events : (String → Option ℕ) → List Happening → List Start.Event
server_events from_json [] = []
server_events from_json (query clock request ∷ es) =
    serve clock request ∷ server_events from_json es
server_events from_json (stale now key ∷ es) = refresh_entry now key ∷ server_events from_json es
server_events from_json (called r source ∷ es) =
    command_events (commands_of from_json r) ++ server_events from_json es
server_events from_json (updated d ∷ es) = update d ∷ server_events from_json es
server_events from_json (ticked now ∷ es) = server_events from_json es
server_events from_json (received now ∷ es) = server_events from_json es

-- What the updater sees.
abbrev pub updater_events : List Happening → List Updater.Event
updater_events [] = []
updater_events (called r source ∷ es) =
    if triggers_at r.method r.path then triggered ∷ updater_events es else updater_events es
updater_events (ticked now ∷ es) = scheduled now ∷ updater_events es
updater_events (received now ∷ es) = forced now ∷ updater_events es
updater_events (query clock request ∷ es) = updater_events es
updater_events (stale now key ∷ es) = updater_events es
updater_events (updated d ∷ es) = updater_events es

Fits-commands :
    (max_instant : ℕ) (cs : List Command) (es : List Start.Event)
    → Running.Fits max_instant (command_events cs ++ es)
    → Pause.Fits max_instant cs × Running.Fits max_instant es
Fits-commands max_instant [] es h = (tt, h)
Fits-commands max_instant (Command.pause now duration ∷ cs) es (h, hs) =
    let (a, b) = Fits-commands max_instant cs es hs in ((h, a), b)
Fits-commands max_instant (Command.resume ∷ cs) es h = Fits-commands max_instant cs es h

module _ (w : World) (h : Handler) where
  abbrev start_run :
      AppServer w.env w.net w.moka w.names w.to_lowercase
      → List Start.Event
      → AppServer w.env w.net w.moka w.names w.to_lowercase
  start_run = Start.run w.env w.net w.moka w.names w.to_lowercase w.moka.max_instant h

  run-commands :
      (s : AppServer w.env w.net w.moka w.names w.to_lowercase) (cs : List Command)
      (es : List Start.Event)
      → start_run s (command_events cs ++ es)
        ≡ start_run (record s { app_state = Pause.run w.moka.max_instant s.app_state cs }) es
  unfolding Start.run Start.step Pause.run Pause.step
  run-commands s [] es = refl
  run-commands s (Command.pause now duration ∷ cs) es =
      run-commands
        (Start.step w.env w.net w.moka w.names w.to_lowercase w.moka.max_instant h s
          (pause now duration))
        cs es
  run-commands s (Command.resume ∷ cs) es =
      run-commands
        (Start.step w.env w.net w.moka w.names w.to_lowercase w.moka.max_instant h s resume) cs es

  -- The server goes through the states that its own events give it.
  pub runs-server :
      (p q : Program w) (es : List Happening)
      → Runs w h p es q
      → w.moka.max_instant < from_secs u64_mod
      → Running.Fits w.moka.max_instant (server_events w.from_json es)
      → q.server ≡ start_run p.server (server_events w.from_json es)
  unfolding Start.run Start.step call
  runs-server p q es done platform fits = refl
  runs-server p q es (next (on_query clock request) rest) platform fits =
      runs-server _ q _ rest platform fits
  runs-server p q es (next (on_stale now key) rest) platform fits =
      runs-server _ q _ rest platform fits
  runs-server p q es (next {es = later} (on_call r source) rest) platform fits =
      let (now, after) =
        Fits-commands w.moka.max_instant (commands_of w.from_json r)
          (server_events w.from_json later) fits in
      let engine =
        handle-engine w.sqlite w.formats w.from_json w.moka.max_instant w.assets r
          (api_state w h.config source p) platform now in
      runs-server _ q _ rest platform after
      ∙ ap (λ a. start_run (record p.server { app_state = a }) (server_events w.from_json later))
          engine
      ∙ sym (run-commands p.server (commands_of w.from_json r) (server_events w.from_json later))
  runs-server p q es (next (on_tick now idle s) rest) platform fits =
      runs-server _ q _ rest platform fits
  runs-server p q es (next (on_message now idle s) rest) platform fits =
      runs-server _ q _ rest platform fits
  runs-server p q es (next (on_update d busy) rest) platform fits =
      runs-server _ q _ rest platform fits

  -- A request to the API is for the updater a trigger, or nothing.
  called-runs :
      (b : Bool) (c : RefreshChannel) (u v : Updater.Updater w.tokio) (es : List Updater.Event)
      → c ≡ (if b then send u.channel else u.channel)
      → Updater.Runs w.tokio (record u { channel = c }) es v
      → Updater.Runs w.tokio u (if b then triggered ∷ es else es) v
  called-runs true c u v es same rest =
      Updater.next on_trigger
        (subst (λ x. Updater.Runs w.tokio (record u { channel = x }) es v) same rest)
  called-runs false c u v es same rest =
      subst (λ x. Updater.Runs w.tokio (record u { channel = x }) es v) same rest

  -- The updater goes through its own steps.
  pub runs-updater :
      (p q : Program w) (es : List Happening)
      → Runs w h p es q
      → Updater.Runs w.tokio p.updater (updater_events es) q.updater
  unfolding call
  runs-updater p q es done = Updater.done
  runs-updater p q es (next (on_query clock request) rest) = runs-updater _ q _ rest
  runs-updater p q es (next (on_stale now key) rest) = runs-updater _ q _ rest
  runs-updater p q es (next {es = later} (on_call r source) rest) =
      called-runs (triggers_at r.method r.path) _ p.updater q.updater (updater_events later)
        (handle-channel w.sqlite w.formats w.from_json w.moka.max_instant w.assets r
          (api_state w h.config source p))
        (runs-updater _ q _ rest)
  runs-updater p q es (next (on_tick now idle s) rest) = Updater.next s (runs-updater _ q _ rest)
  runs-updater p q es (next (on_message now idle s) rest) = Updater.next s (runs-updater _ q _ rest)
  runs-updater p q es (next (on_update d busy) rest) = runs-updater _ q _ rest
