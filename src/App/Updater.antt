-- ===== src/App/Updater.antt =====
-- The updater of `spawn_background_tasks` in src/main.rs: it waits for its timer or for a message of
-- the API, and then refreshes the blocklists.
pub mod Schedule
use ad_nope.Prelude.{ℕ, ◌+◌, ◌*◌, ◌%◌, ◌≤◌, ◌<◌, ◌≡◌, List, [], ◌∷◌, Outcome, returns, panics}
use ad_nope.Prelude.Words.{u64_mod}
use ad_nope.Config.{Config}
use ad_nope.Engine.State.{from_secs}
use ad_nope.Api.{RefreshChannel, message, ended, send, recv}

-- tokio's `interval`: it panics on a period of 0; the first tick is due at once, each later one a
-- period after the one before was due, and after `reset` a period later. The laws hold up to the last
-- instant that the platform represents.
pub record TimerLibrary (max_instant : ℕ) : Type 1 where
  pub Timer : Type 0
  pub due : Timer → ℕ
  pub period : Timer → ℕ
  pub interval : ℕ → ℕ → Outcome Timer
  pub tick : ℕ → Timer → Timer
  pub reset : ℕ → Timer → Outcome Timer
  pub interval-zero : (now : ℕ) → interval now 0 ≡ panics
  pub interval-positive :
      (now p : ℕ)
      → 0 < p
      → (t : Timer) × (interval now p ≡ returns t) × (due t ≡ now) × (period t ≡ p)
  pub due-tick :
      (now : ℕ) (t : Timer)
      → due t ≤ now
      → now + period t ≤ max_instant
      → due (tick now t) ≡ due t + period t
  pub period-tick : (now : ℕ) (t : Timer) → period (tick now t) ≡ period t
  pub due-reset :
      (now : ℕ) (t u : Timer)
      → reset now t ≡ returns u
      → now + period t ≤ max_instant
      → due u ≡ now + period t
  pub period-reset : (now : ℕ) (t u : Timer) → reset now t ≡ returns u → period u ≡ period t
  pub reset-returns :
      (now : ℕ) (t : Timer) → now + period t ≤ max_instant → (u : Timer) × (reset now t ≡ returns u)

-- `interval_hours * 3600` seconds, in a build without overflow checks
unfoldable pub update_interval : Config → ℕ
update_interval config = from_secs (config.updates.interval_hours * 3600 % u64_mod)

-- A trigger over the API, and the two branches of `select!`, with the instant.
pub data Event : Type 0 where
  triggered : Event
  scheduled forced : ℕ → Event

module _ {max_instant : ℕ} (tokio : TimerLibrary max_instant) where
  abbrev pub after_tick : ℕ → Outcome tokio.Timer → Outcome tokio.Timer
  after_tick now (returns t) = returns (tokio.tick now t)
  after_tick now panics = panics

  -- The timer before the loop: made, and its first tick awaited.
  unfoldable pub first_timer : ℕ → Config → Outcome tokio.Timer
  unfolding update_interval
  first_timer now config = after_tick now (tokio.interval now (update_interval config))

  -- The timer, the channel from the API, and when the loop was last entered.
  pub record Updater : Type 0 where
    pub timer : tokio.Timer
    pub channel : RefreshChannel
    pub woken : ℕ

  -- A branch is taken when it is ready; `recv` also returns when no sender is left.
  pub data Step : Updater → Event → Updater → Type 0 where
    on_trigger : {u : Updater} → Step u triggered (record u { channel = send u.channel })
    on_tick :
        {u : Updater} (now : ℕ)
        → u.woken ≤ now
        → tokio.due u.timer ≤ now
        → Step u (scheduled now) (record u { timer = tokio.tick now u.timer; woken = now })
    on_message :
        {u : Updater} {t : tokio.Timer} {c : RefreshChannel} (now : ℕ)
        → u.woken ≤ now
        → recv u.channel ≡ message c
        → tokio.reset now u.timer ≡ returns t
        → Step u (forced now) (record { timer = t; channel = c; woken = now })
    on_end :
        {u : Updater} {t : tokio.Timer} (now : ℕ)
        → u.woken ≤ now
        → recv u.channel ≡ ended
        → tokio.reset now u.timer ≡ returns t
        → Step u (forced now) (record u { timer = t; woken = now })

  -- What happens, in its order.
  pub data Runs : Updater → List Event → Updater → Type 0 where
    done : {u : Updater} → Runs u [] u
    next :
        {u v w : Updater} {e : Event} {es : List Event}
        → Step u e v
        → Runs v es w
        → Runs u (e ∷ es) w
