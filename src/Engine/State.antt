-- ===== src/Engine/State.antt =====
-- src/engine/state.rs: `AppState`, the pause of the blocking behind a read-write lock.
-- Instants and durations are numbers of nanoseconds. A panic while the lock is held for writing
-- poisons it, and `unwrap` on a poisoned lock panics.
pub mod Pause
use ad_nope.Prelude.{
  ℕ, ◌+◌, ◌-◌, ◌*◌, ◌/◌, Bool, true, false, not, Option, none, some, Outcome, returns, panics, ltb,
  if◌then◌else◌,
}

abbrev pub nanos_per_sec : ℕ
nanos_per_sec = 1_000_000_000

-- `Duration::from_secs`
abbrev pub from_secs : ℕ → ℕ
from_secs n = n * nanos_per_sec

pub record AppState : Type 0 where
  pub blocking_paused_until : Option ℕ
  pub poisoned : Bool

unfoldable pub new : AppState
new = record { blocking_paused_until = none; poisoned = false }

-- The lock is taken: `read().unwrap()`, `write().unwrap()`.
unfoldable pub unwrap {ℓ} : {A : Type ℓ} → AppState → A → Outcome A
unwrap s a = if s.poisoned then panics else returns a

unfoldable pub active_at : Option ℕ → ℕ → Bool
active_at none now = true
active_at (some until) now = if ltb now until then false else true

unfoldable pub is_blocking_active : AppState → ℕ → Outcome Bool
unfolding unwrap active_at
is_blocking_active s now = unwrap s (active_at s.blocking_paused_until now)

-- `Instant::now() + duration` panics past the last instant that the platform represents, here
-- `max_instant`; the guard is held then.
unfoldable pub pause_blocking : ℕ → AppState → ℕ → ℕ → Outcome (Unit {0}) × AppState
pause_blocking max_instant s now duration =
    if s.poisoned
    then (panics, s)
    else if ltb max_instant (now + duration)
    then (panics, record s { poisoned = true })
    else (returns tt, record s { blocking_paused_until = some (now + duration) })

unfoldable pub resume_blocking : AppState → Outcome (Unit {0}) × AppState
resume_blocking s =
    if s.poisoned then (panics, s) else (returns tt, record s { blocking_paused_until = none })

unfoldable pub remaining_secs : Option ℕ → ℕ → Option ℕ
remaining_secs none now = none
remaining_secs (some until) now =
    if ltb now until then some ((until - now) / nanos_per_sec) else none

unfoldable pub get_pause_remaining_secs : AppState → ℕ → Outcome (Option ℕ)
unfolding unwrap remaining_secs
get_pause_remaining_secs s now = unwrap s (remaining_secs s.blocking_paused_until now)
