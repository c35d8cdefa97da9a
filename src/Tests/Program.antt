-- ===== src/Tests/Program.antt =====
-- The theorems on the running program, at concrete inputs.
use ad_nope.Prelude.{
  ℕ, zero, suc, ◌+◌, ◌*◌, ◌≤◌, ◌<◌, ◌≡◌, refl, ap, sym, ◌∙◌, Bool, true, false, String, Option,
  none, some, List, [], ◌∷◌, Outcome, returns, panics, arith, if◌then◌else◌, string_eq,
}
use ad_nope.Tests.Fixtures.{last_instant, unbounded, names, environment}
use ad_nope.Tests.App.{
  silent, config, downloads, unchanged, stats, started, clock, request, ads_listed,
}
use ad_nope.Tests.Db.{in_order, formats}
use ad_nope.Dns.{a}
use ad_nope.Engine.State.{from_secs, is_blocking_active}
use ad_nope.Engine.State.Pause.{last_until}
use ad_nope.Logger.Memory
use ad_nope.Api.{send, recv, message}
use ad_nope.Api.Refreshing.{fresh}
use ad_nope.Api.Channel.{triggers_at, handle-channel}
use ad_nope.App.Start.{AppServer, serve}
use ad_nope.Api.Source.{ApiDataSource, in_memory}
use ad_nope.Api.Routes.{HttpRequest, Method, get, post, status, handle}
use ad_nope.App.Updater.{TimerLibrary, update_interval, first_timer, on_tick, on_message}
use ad_nope.App.Updater.Schedule.{scheduled_rounds, forced_rounds, triggers_in}
use ad_nope.App.{init_app_stats}
use ad_nope.App.Program.Refines.{updater_events, server_events, runs-server}
use ad_nope.App.Program.Served.{runs-Replied, runs-Listed}
use ad_nope.App.Program.Updates.{updates, launched-updates}
use ad_nope.App.Program.Shown.{commands, IsActive, IsRemaining, runs-status}
use ad_nope.App.Program.Unbound.{rounds, unbound-rounds}
use ad_nope.Api.Refreshing.{queued}
use ad_nope.App.Running.{run-current}
use ad_nope.Server.Handler.{handle_request}
use ad_nope.Server.Replies.{context}
use ad_nope.Server.Replies.Handlers.{Replied}
use ad_nope.Server.Upstreams.{policy_resolver}
use ad_nope.Engine.Matcher.Suffix.{Parent}
use ad_nope.Engine.Blocklist.Refresh.{Listed}
use ad_nope.Logger.Names.{blocklist_name_of}
use ad_nope.App.Program
use ad_nope.App.Program.{
  World, Program, Happening, query, stale, called, ticked, received, updated, launched, Runs, done,
  next, on_query, on_stale, on_call, on_update, call, served, api_state,
}

abbrev interval : ℕ → ℕ → Outcome (ℕ × ℕ)
interval now zero = panics
interval now (suc p) = returns (now, suc p)

interval-suc :
    (now p : ℕ) → 0 < p → (t : ℕ × ℕ) × (interval now p ≡ returns t) × (t.0 ≡ now) × (t.1 ≡ p)
interval-suc now (suc p) h = ((now, suc p), refl, refl, refl)
interval-suc now zero h = absurd (omega arith)

abbrev timer_of : Outcome (ℕ × ℕ) → ℕ × ℕ
timer_of (returns t) = t
timer_of panics = (0, 0)

-- A timer is when it is due, and its period.
abbrev timers : TimerLibrary last_instant
timers = record {
  Timer = ℕ × ℕ;
  due = λ t. t.0;
  period = λ t. t.1;
  interval = interval;
  tick = λ now t. (t.0 + t.1, t.1);
  reset = λ now t. returns (now + t.1, t.1);
  interval-zero = λ now. refl;
  interval-positive = interval-suc;
  due-tick = λ now t due range. refl;
  period-tick = λ now t. refl;
  due-reset = λ now t u set range. sym (ap (λ o. (timer_of o).0) set);
  period-reset = λ now t u set. sym (ap (λ o. (timer_of o).1) set);
  reset-returns = λ now t range. ((now + t.1, t.1), refl);
}

abbrev world : World
world = record {
  env = environment;
  net = silent;
  moka = unbounded;
  names = names;
  to_lowercase = unchanged;
  sqlite = in_order;
  formats = formats;
  from_json = λ body. some 5;
  File = String;
  assets = λ path. none;
  tokio = timers;
}

abbrev timer : ℕ × ℕ
timer = (from_secs 86_400, from_secs 86_400)

timer-made : first_timer timers 0 config ≡ returns timer
unfolding first_timer update_interval
timer-made = refl

abbrev source : ApiDataSource
source = in_memory stats (Memory.new 100)

abbrev call_of : Method → String → ℕ → HttpRequest
call_of method path now = record {
  method = method;
  path = path;
  body = "five minutes";
  first = now;
  second = now;
  clocks = record { now = 0; elapsed = 0; updated = 0 };
}

-- A pause, a query, a trigger and its round, a scheduled round a day later, and a request for a file.
abbrev happenings : List Happening
happenings =
    called (call_of post "/api/pause" 7) source
    ∷ query clock request
    ∷ called (call_of post "/api/refresh" 9) source
    ∷ received (from_secs 10)
    ∷ updated (downloads "ads.com")
    ∷ ticked (from_secs 86_410)
    ∷ called (call_of get "/api/pause" 11) source
    ∷ []

abbrev launch : Program world
launch = launched world started.0.1 timer 0 true

-- A request of the happenings to the API in a state.
abbrev after : Method → String → ℕ → Program world → Program world
after method path now p = call world started.0.0 (call_of method path now) source p

-- The pause leaves the channel to the updater as it is, and the trigger sends a message.
channel-after :
    (method : Method) (path : String) (now : ℕ) (p : Program world)
    → (after method path now p).updater.channel
      ≡ (if triggers_at method path then send p.updater.channel else p.updater.channel)
unfolding call
channel-after method path now p =
    handle-channel in_order formats world.from_json last_instant world.assets
      (call_of method path now) (api_state world started.0.0.config source p)

abbrev paused_state : Program world
paused_state = after post "/api/pause" 7 launch

abbrev triggered_state : Program world
triggered_state =
    after post "/api/refresh" 9 (served world started.0.0 paused_state (serve clock request))

holds_message : recv triggered_state.updater.channel ≡ message fresh
unfolding send recv
holds_message = ap recv (
    channel-after post "/api/refresh" 9
      (served world started.0.0 paused_state (serve clock request))
    ∙ ap send (channel-after post "/api/pause" 7 launch))

abbrev ran : (q : Program world) × Runs world started.0.0 launch happenings q
unfolding call
ran = (
  _,
  next (on_call (call_of post "/api/pause" 7) source) (
      next (on_query clock request) (
        next (on_call (call_of post "/api/refresh" 9) source) (
          next
            (Program.on_message (from_secs 10) refl
              (on_message (from_secs 10) (omega arith) holds_message refl))
            (next (on_update (downloads "ads.com") refl) (
              next
                (Program.on_tick (from_secs 86_410) refl
                  (on_tick (from_secs 86_410) (omega arith) (omega arith)))
                (next (on_call (call_of get "/api/pause" 11) source) done)))))),
)

abbrev running : Program world
running = ran.0

runs-Replied_example :
    Replied
      (policy_resolver silent)
      unbounded
      names
      started.0.0
      clock
      request
      (context (policy_resolver silent) unbounded names clock "Ads.com." a)
      (λ r. r)
      running.server
      (handle_request
        (policy_resolver silent)
        unbounded
        names
        started.0.0
        clock
        request
        running.server)
runs-Replied_example =
    runs-Replied world config stats [] (downloads "a.com") tt started.0.0 started.0.1 started.1
      timer 0 true running happenings ran.1 (omega arith) (omega arith, tt) clock request "Ads.com."
      a refl refl (omega arith)

blocks : running.server.blocklist "ads.com" ≡ some 0
blocks =
    ap (λ (x : AppServer environment silent unbounded names unchanged). x.blocklist "ads.com")
      (runs-server world started.0.0 launch running happenings ran.1 (omega arith)
        (omega arith, tt))
    ∙ ap (λ (f : String → Option ℕ). f "ads.com")
        (run-current environment silent unbounded names unchanged config stats []
          (downloads "a.com") tt last_instant started.0.0 started.0.1
          (server_events world.from_json happenings) started.1 (omega arith, tt))
    ∙ ads_listed

runs-Listed_example :
    (u : String) × Parent u "ads.com"
    × (l : Listed unchanged (downloads "ads.com").http config u 0) × (blocklist_name_of
          (init_app_stats 7 config).1
          (some 0)
        ≡ some l.entry.0)
runs-Listed_example =
    runs-Listed world config stats [] (downloads "a.com") tt started.0.0 started.0.1 started.1 timer
      0 true running happenings ran.1 (omega arith) (omega arith, tt) 7 "ads.com" 0 blocks
      (omega arith)

launched-updates_example :
    (0 + scheduled_rounds (updater_events happenings) * update_interval config
      ≤ running.updater.woken)
    × (timers.due running.updater.timer ≤ running.updater.woken + update_interval config)
    × (forced_rounds (updater_events happenings) + queued running.updater.channel
        ≡ triggers_in (updater_events happenings))
    × (updates happenings + (if running.downloading then 1 else 0)
        ≡ scheduled_rounds (updater_events happenings) + forced_rounds (updater_events happenings))
unfolding update_interval
launched-updates_example =
    launched-updates world started.0.0 config 0 timer started.0.1 running happenings timer-made
      ran.1 (omega arith) (omega arith, (omega arith, tt))

runs-status_example :
    ((b : Bool) × (is_blocking_active running.server.app_state 8 ≡ returns b)
      × IsActive (last_until none (commands world.from_json happenings)) 8 b)
    × ((active : Bool) × (secs : Option ℕ) × ((handle in_order formats world.from_json last_instant
            world.assets
            (call_of get "/api/status" 12)
            (api_state world started.0.0.config source running)).0
          ≡ returns (status (record { blocking_active = active; pause_remaining_secs = secs })))
        × IsActive (last_until none (commands world.from_json happenings)) 12 active
        × IsRemaining (last_until none (commands world.from_json happenings)) 12 secs)
runs-status_example =
    runs-status world config stats [] (downloads "a.com") tt started.0.0 started.0.1 timer 0 true
      running happenings (call_of get "/api/status" 12) source 8 started.1 ran.1 (omega arith)
      (omega arith, tt) refl refl

unbound-rounds_example :
    (q : Program world) × Runs world started.0.0
      (launched world started.0.1 timer 0 false)
      (rounds 3 5 (downloads "ads.com"))
      q
unbound-rounds_example =
    unbound-rounds world started.0.0 3 5 0 (downloads "ads.com") timer started.0.1 (omega arith)
      (omega arith)
