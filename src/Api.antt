-- ===== src/Api.antt =====
-- src/api/mod.rs: the handlers of the web API, on the state that they share. A handler returns the value
-- that is encoded; the web framework and the encoding as JSON are not modelled.
pub mod Source
pub mod Routes
pub mod Commands
pub mod Status
pub mod Channel
pub mod Pausing
pub mod Refreshing
use ad_nope.Prelude.{
  ℕ, ◌+◌, ◌-◌, ◌*◌, ◌%◌, String, Bool, true, false, Option, none, some, List, Outcome, returns,
  panics, ltb, ◌==◌, nat_eq, if◌then◌else◌,
}
use Prim.Native.Char.{code}
use Prim.Native.String.{[], ◌∷◌}
use ad_nope.Prelude.Text.{is_empty}
use ad_nope.Prelude.Words.{u64_mod}
use ad_nope.Config.{Config}
use ad_nope.Db.{Sqlite, Formats}
use ad_nope.Engine.State
use ad_nope.Engine.State.{
  AppState, from_secs, is_blocking_active, resume_blocking, get_pause_remaining_secs,
}
use ad_nope.Logger.{QueryLogEntry}
use ad_nope.Stats.{StatsSnapshot}
use ad_nope.Server.Action.{Action, ◌>>=◌, pure}
use ad_nope.Api.Source.{ApiDataSource, Clocks, get_stats, get_logs}

-- The channel of capacity 1 to the updater: whether it holds a message, how many senders wait for
-- room, and whether the receiver or the last sender is gone.
pub record RefreshChannel : Type 0 where
  pub pending : Bool
  pub waiting : ℕ
  pub closed : Bool
  pub disconnected : Bool

-- What `recv` does: it yields a message and leaves the channel, it yields nothing, or it waits.
pub data Received : Type 0 where
  message : RefreshChannel → Received
  ended waits : Received

pub record ApiState : Type 0 where
  pub data_source : ApiDataSource
  pub engine : AppState
  pub config : Config
  pub refresh_sender : RefreshChannel

-- What `pause_blocking` answers, and `get_status`.
pub record PauseReply : Type 0 where
  pub status : String
  pub duration_min : ℕ

pub record StatusReply : Type 0 where
  pub blocking_active : Bool
  pub pause_remaining_secs : Option ℕ

-- A call on the engine.
abbrev pub on_engine : {A : Type 0} → (AppState → Outcome A × AppState) → Action ApiState A
on_engine f s = let (o, engine) = f s.engine in (o, record s { engine = engine })

-- A call that reads the engine.
abbrev pub read_engine : {A : Type 0} → (AppState → Outcome A) → Action ApiState A
read_engine f s = (f s.engine, s)

-- `duration_minutes * 60`, in a build without overflow checks
unfoldable pub pause_seconds : ℕ → ℕ
pause_seconds duration_minutes = duration_minutes * 60 % u64_mod

-- `now` is the instant that the engine reads.
unfoldable pub pause_blocking : ℕ → ℕ → ℕ → Action ApiState PauseReply
unfolding pause_seconds State.pause_blocking
pause_blocking max_instant now duration_minutes =
    on_engine (λ engine.
      State.pause_blocking max_instant engine now (from_secs (pause_seconds duration_minutes)))
    >>= λ _. pure (record { status = "paused"; duration_min = duration_minutes })

unfoldable pub resume : Action ApiState String
unfolding resume_blocking
resume = on_engine resume_blocking >>= λ _. pure "resumed"

-- The engine reads the clock in each of its two calls.
unfoldable pub get_status : ℕ → ℕ → Action ApiState StatusReply
unfolding is_blocking_active get_pause_remaining_secs
get_status first second = read_engine (λ engine. is_blocking_active engine first) >>= λ active.
    read_engine (λ engine. get_pause_remaining_secs engine second) >>= λ remaining.
    pure (record { blocking_active = active; pause_remaining_secs = remaining })

-- `send(()).await`: the sender waits while the channel is full; the result is dropped.
unfoldable pub send : RefreshChannel → RefreshChannel
send c =
    if c.closed
    then c
    else if c.pending
    then record c { waiting = c.waiting + 1 }
    else record c { pending = true }

-- `recv`: the message is taken, and the first of the waiting senders sends its own. Without a message
-- it returns at once if no sender is left.
unfoldable pub recv : RefreshChannel → Received
recv c =
    if c.pending
    then message (record c { pending = ltb 0 c.waiting; waiting = c.waiting - 1 })
    else if c.disconnected
    then ended
    else waits

unfoldable pub trigger_refresh : Action ApiState String
unfolding send
trigger_refresh s =
    (returns "refresh_triggered", record s { refresh_sender = send s.refresh_sender })

unfoldable pub get_config : Action ApiState Config
get_config s = (returns s.config, s)

abbrev pub logs_limit : ℕ
logs_limit = 100

-- A call on the data source.
abbrev pub on_source :
    {A : Type 0} → (ApiDataSource → Outcome A × ApiDataSource) → Action ApiState A
on_source f s = let (o, source) = f s.data_source in (o, record s { data_source = source })

module _ (sqlite : Sqlite) (formats : Formats) where
  unfoldable pub stats : Clocks → Action ApiState StatsSnapshot
  unfolding get_stats
  stats clocks = on_source (get_stats sqlite formats clocks)

  unfoldable pub logs : Action ApiState (List QueryLogEntry)
  unfolding get_logs
  logs = on_source (get_logs sqlite formats logs_limit)

-- `trim_start_matches('/')`
unfoldable pub trim_slashes : String → String
trim_slashes [] = []
trim_slashes (c ∷ s) = if code c == b'/' then trim_slashes s else c ∷ s

unfoldable pub asset_path : String → String
unfolding trim_slashes is_empty
asset_path uri_path =
    let path = trim_slashes uri_path in if is_empty path then "index.html" else path

-- The answer to any other path: an embedded file, or nothing.
unfoldable pub static_handler : {A : Type 0} → (String → Option A) → String → Option A
unfolding asset_path
static_handler assets uri_path = assets (asset_path uri_path)
