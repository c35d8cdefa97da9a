-- ===== src/App/Program/Shown.antt =====
-- What the web API of the running program of src/main.rs shows of the pause.
use native.Mathlib.Decide.{dec_lt}
use ad_nope.Config.{Config}
use ad_nope.Prelude.{
  Bool, true, ok, none, some, ℕ, ◌+◌, ◌-◌, ◌/◌, ◌≤◌, ◌↔◌, ◌⊎◌, inl, inr, arith, ◌<◌, ◌≡◌, refl, ap,
  sym, ◌∙◌, false, String, Option, List, [], ◌∷◌, ◌++◌, returns,
}
use ad_nope.Prelude.Words.{u64_mod}
use ad_nope.Engine.State.{
  AppState, from_secs, nanos_per_sec, active_at, remaining_secs, is_blocking_active, unwrap,
}
use ad_nope.Engine.State.Pause
use ad_nope.Engine.State.Pause.{Command, last_until, run-until}
use ad_nope.Server.Query.{Handler}
use ad_nope.Server.Untouched.{handle_request-Kept, refresh_stale-Kept}
use ad_nope.Server.Upstreams.{policy_resolver}
use ad_nope.Api.Source.{ApiDataSource}
use ad_nope.Api.Routes.{HttpRequest, get, status, handle}
use ad_nope.Api.Commands.{commands_of, Fits-++, run-++}
use ad_nope.Api.Status.{handle-engine, handle-status}
use ad_nope.App.Start
use ad_nope.App.Start.{AppServer, Downloads, start}
use ad_nope.App.Running.{start-app_state}
use ad_nope.Logger.{Channel}
use ad_nope.Stats.{StatsCollector}
use ad_nope.Engine.State
use ad_nope.Server.Handler
use ad_nope.App.Program.{
  World, Program, Happening, query, stale, called, ticked, received, updated, api_state, launched,
  Runs, done, next, on_query, on_stale, on_call, on_tick, on_message, on_update, call,
}

-- What the requests to the API command, in their order.
abbrev pub commands : (String → Option ℕ) → List Happening → List Command
commands from_json [] = []
commands from_json (called r source ∷ es) = commands_of from_json r ++ commands from_json es
commands from_json (query clock request ∷ es) = commands from_json es
commands from_json (stale now key ∷ es) = commands from_json es
commands from_json (ticked now ∷ es) = commands from_json es
commands from_json (received now ∷ es) = commands from_json es
commands from_json (updated d ∷ es) = commands from_json es

module _ (w : World) (h : Handler) where
  -- Only the API changes the pause.
  runs-app_state :
      (p q : Program w) (es : List Happening)
      → Runs w h p es q
      → w.moka.max_instant < from_secs u64_mod
      → Pause.Fits w.moka.max_instant (commands w.from_json es)
      → q.server.app_state
        ≡ Pause.run w.moka.max_instant p.server.app_state (commands w.from_json es)
  unfolding Pause.run call Start.step Start.update_round Handler.update_blocklist
  runs-app_state p q es done platform fits = refl
  runs-app_state p q es (next {es = later} (on_query clock request) rest) platform fits =
      runs-app_state _ q _ rest platform fits
      ∙ ap (λ a. Pause.run w.moka.max_instant a (commands w.from_json later))
          (handle_request-Kept (policy_resolver w.net) w.moka w.names h clock request p.server).0
  runs-app_state p q es (next {es = later} (on_stale now key) rest) platform fits =
      runs-app_state _ q _ rest platform fits
      ∙ ap (λ a. Pause.run w.moka.max_instant a (commands w.from_json later))
          (refresh_stale-Kept (policy_resolver w.net) w.moka w.names h.config now key p.server).0
  runs-app_state p q es (next {es = later} (on_call r source) rest) platform fits =
      let (now, after) =
        Fits-++ w.moka.max_instant (commands_of w.from_json r) (commands w.from_json later) fits in
      runs-app_state _ q _ rest platform after
      ∙ ap (λ a. Pause.run w.moka.max_instant a (commands w.from_json later))
          (handle-engine w.sqlite w.formats w.from_json w.moka.max_instant w.assets r
            (api_state w h.config source p) platform now)
      ∙ sym (
          run-++ w.moka.max_instant p.server.app_state (commands_of w.from_json r)
            (commands w.from_json later))
  runs-app_state p q es (next (on_tick now idle s) rest) platform fits =
      runs-app_state _ q _ rest platform fits
  runs-app_state p q es (next (on_message now idle s) rest) platform fits =
      runs-app_state _ q _ rest platform fits
  runs-app_state p q es (next (on_update d busy) rest) platform fits =
      runs-app_state _ q _ rest platform fits

  -- The same from a state whose lock is not poisoned.
  runs-until :
      (p q : Program w) (es : List Happening)
      → Runs w h p es q
      → w.moka.max_instant < from_secs u64_mod
      → Pause.Fits w.moka.max_instant (commands w.from_json es)
      → State.new ≡ p.server.app_state
      → (q.server.app_state.poisoned ≡ false)
        × (q.server.app_state.blocking_paused_until ≡ last_until none (commands w.from_json es))
  unfolding State.new
  runs-until p q es runs platform fits fresh =
      let cs = commands w.from_json es in
      let after =
        runs-app_state p q es runs platform fits
        ∙ ap (λ a. Pause.run w.moka.max_instant a cs) (sym fresh) in
      let (sound, until) = run-until w.moka.max_instant State.new cs refl fits in
      (
        ap (λ (a : AppState). a.poisoned) after ∙ sound,
        ap (λ (a : AppState). a.blocking_paused_until) after ∙ until,
      )

-- Whether the blocking is active at the instant `now`: it is unless a pause is set that ends later.
abbrev pub IsActive : Option ℕ → ℕ → Bool → Type 0
IsActive none now active = active ≡ true
IsActive (some until) now active = (active ≡ true) ↔ (until ≤ now)

-- The whole seconds of the pause that remain at the instant `now`: nothing where no pause is set, or
-- where it has ended.
abbrev pub IsRemaining : Option ℕ → ℕ → Option ℕ → Type 0
IsRemaining none now secs = secs ≡ none
IsRemaining (some until) now secs =
    ((until ≤ now) × (secs ≡ none))
    ⊎ ((n : ℕ) × (secs ≡ some n)
        × (now < until)
        × (from_secs n ≤ until - now)
        × (until - now < from_secs (n + 1)))

active_at-IsActive : (o : Option ℕ) (now : ℕ) → IsActive o now (active_at o now)
unfolding active_at
active_at-IsActive none now = refl
active_at-IsActive (some until) now = (ground arith, ground arith)

remaining_secs-IsRemaining : (o : Option ℕ) (now : ℕ) → IsRemaining o now (remaining_secs o now)
unfolding remaining_secs
remaining_secs-IsRemaining none now = refl
remaining_secs-IsRemaining (some until) now = elim (dec_lt now until) [
  | yes early ↦ inr ((until - now) / nanos_per_sec, ground arith, early, omega arith, omega arith)
  | no late ↦ inl (omega arith, ground arith)
]

module _ (w : World) where
  -- If the program starts on a platform whose instants are below 2^64 seconds, then after any
  -- queries, requests to the API, malformed ones included, and rounds of the updater, where no
  -- pause reaches past the last instant: the last accepted pause or resume, or else that there was
  -- none, decides at every time whether the server blocks: it does unless that was a pause that ends
  -- later. The status over the API says the same for its two instants, with the whole seconds of the
  -- pause that remain.
  pub runs-status :
      (config : Config) (stats : StatsCollector) (logger : List Channel) (d : Downloads)
      (state : w.net.State) (h : Handler) (s : AppServer w.env w.net w.moka w.names w.to_lowercase)
      (timer : w.tokio.Timer) (now : ℕ) (bound : Bool) (q : Program w) (es : List Happening)
      (r : HttpRequest) (source : ApiDataSource) (t : ℕ)
      → start w.env w.net w.moka w.names w.to_lowercase config stats logger d state ≡ ok (h, s)
      → Runs w h (launched w s timer now bound) es q
      → w.moka.max_instant < from_secs u64_mod
      → Pause.Fits w.moka.max_instant (commands w.from_json es)
      → r.method ≡ get
      → r.path ≡ "/api/status"
      → ((b : Bool) × (is_blocking_active q.server.app_state t ≡ returns b)
          × IsActive (last_until none (commands w.from_json es)) t b)
        × ((active : Bool) × (secs : Option ℕ) × ((handle w.sqlite w.formats w.from_json
                w.moka.max_instant w.assets r
                (api_state w h.config source q)).0
              ≡ returns (status (record { blocking_active = active; pause_remaining_secs = secs })))
            × IsActive (last_until none (commands w.from_json es)) r.first active
            × IsRemaining (last_until none (commands w.from_json es)) r.second secs)
  unfolding is_blocking_active
  runs-status config stats logger d state h s timer now bound q es r source t started runs platform
        fits method path =
      let fresh =
        start-app_state w.env w.net w.moka w.names w.to_lowercase config stats logger d state
          w.moka.max_instant h s started in
      let (safe, until) =
        runs-until w h (launched w s timer now bound) q es runs platform fits fresh in
      let last = last_until none (commands w.from_json es) in
      (
        (
          active_at last t,
          rw (safe, unwrap) (ap (λ u. returns (active_at u t)) until),
          active_at-IsActive last t,
        ),
        (
          active_at last r.first,
          remaining_secs last r.second,
          handle-status w.sqlite w.formats w.from_json w.moka.max_instant w.assets r
              (api_state w h.config source q) _ safe until method path,
          active_at-IsActive last r.first,
          remaining_secs-IsRemaining last r.second,
        ),
      )
