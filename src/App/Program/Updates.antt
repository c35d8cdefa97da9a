-- ===== src/App/Program/Updates.antt =====
-- How often the running program of src/main.rs updates its blocklists.
use ad_nope.Prelude.{
  ℕ, suc, ◌+◌, ◌*◌, ◌≤◌, ◌≡◌, refl, ap, Bool, true, false, List, [], ◌∷◌, returns, arith,
  if◌then◌else◌,
}
use ad_nope.Config.{Config}
use ad_nope.Server.Query.{Handler}
use ad_nope.Api.Refreshing.{queued}
use ad_nope.Api.Channel.{triggers_at}
use ad_nope.App.Start.{AppServer}
use ad_nope.App.Updater
use ad_nope.App.Updater.{update_interval, first_timer, triggered}
use ad_nope.App.Updater.Schedule.{
  InRange, scheduled_rounds, forced_rounds, triggers_in, first_timer-run,
}
use ad_nope.App.Program.{
  World, Program, Happening, query, stale, called, ticked, received, updated, launched, Runs, done,
  next, on_query, on_stale, on_call, on_tick, on_message, on_update, call,
}
use ad_nope.App.Program.Refines.{updater_events, runs-updater}

-- The blocklists that were put in place.
abbrev pub updates : List Happening → ℕ
updates [] = 0
updates (updated d ∷ es) = suc (updates es)
updates (query clock request ∷ es) = updates es
updates (stale now key ∷ es) = updates es
updates (called r source ∷ es) = updates es
updates (ticked now ∷ es) = updates es
updates (received now ∷ es) = updates es

abbrev in_progress : Bool → ℕ
in_progress true = 1
in_progress false = 0

rounds-called :
    (b : Bool) (es : List Updater.Event)
    → scheduled_rounds (if b then triggered ∷ es else es)
        + forced_rounds (if b then triggered ∷ es else es)
      ≡ scheduled_rounds es + forced_rounds es
rounds-called true es = refl
rounds-called false es = refl

module _ (w : World) (h : Handler) where
  -- Each round ends with one update, but for one in progress.
  runs-updates :
      (p q : Program w) (es : List Happening)
      → Runs w h p es q
      → updates es + in_progress q.downloading
        ≡ scheduled_rounds (updater_events es)
          + forced_rounds (updater_events es)
          + in_progress p.downloading
  unfolding call
  runs-updates p q es done = omega arith
  runs-updates p q es (next (on_query clock request) rest) = runs-updates _ q _ rest
  runs-updates p q es (next (on_stale now key) rest) = runs-updates _ q _ rest
  runs-updates p q es (next {es = later} (on_call r source) rest) =
      let ih = runs-updates _ q later rest in
      let same = rounds-called (triggers_at r.method r.path) (updater_events later) in omega arith
  runs-updates p q es (next {es = later} (on_tick now idle s) rest) =
      let ih = runs-updates _ q later rest in let before = ap in_progress idle in omega arith
  runs-updates p q es (next {es = later} (on_message now idle s) rest) =
      let ih = runs-updates _ q later rest in let before = ap in_progress idle in omega arith
  runs-updates p q es (next {es = later} (on_update d busy) rest) =
      let ih = runs-updates _ q later rest in let before = ap in_progress busy in omega arith

  -- From the launch of the program on, with the port of the API bound, over any queries, requests
  -- to the API and rounds of the updater, in any order that the timer and the channel allow and
  -- with no round within an interval of the last instant of the platform: there is at most one
  -- scheduled round for each interval of the configuration that had passed when the loop was last
  -- entered; the next one is due at most an interval after that, however often the API forced a
  -- round; the triggers over the API are as many as the forced rounds and the messages that are
  -- held or wait for room; and each round has put a new blocklist in place, but for one that is in
  -- progress.
  pub launched-updates :
      (config : Config) (start : ℕ) (t : w.tokio.Timer)
      (s : AppServer w.env w.net w.moka w.names w.to_lowercase) (q : Program w)
      (es : List Happening)
      → first_timer w.tokio start config ≡ returns t
      → Runs w h (launched w s t start true) es q
      → start + update_interval config ≤ w.moka.max_instant
      → InRange w.moka.max_instant (update_interval config) (updater_events es)
      → (start + scheduled_rounds (updater_events es) * update_interval config ≤ q.updater.woken)
        × (w.tokio.due q.updater.timer ≤ q.updater.woken + update_interval config)
        × (forced_rounds (updater_events es) + queued q.updater.channel
            ≡ triggers_in (updater_events es))
        × (updates es + (if q.downloading then 1 else 0)
            ≡ scheduled_rounds (updater_events es) + forced_rounds (updater_events es))
  launched-updates config start t s q es made runs first_in range =
      let (paced, due, served) =
        first_timer-run w.tokio start config t (updater_events es) q.updater made first_in range
          (runs-updater w h (launched w s t start true) q es runs) in
      let rounds = runs-updates (launched w s t start true) q es runs in
      (paced, due, served, ground arith)
