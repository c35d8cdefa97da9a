-- ===== src/App/Updater/Schedule.antt =====
-- When the updater of src/main.rs refreshes, and how often.
use ad_nope.Prelude.{
  ℕ, zero, suc, ◌+◌, ◌*◌, ◌≤◌, ◌≡◌, refl, ap, sym, ◌∙◌, List, [], ◌∷◌, Outcome, returns, panics,
  arith,
}
use mathlib.Core.Path.{subst}
use ad_nope.Config.{Config}
use ad_nope.Api.{RefreshChannel}
use ad_nope.Api.Refreshing.{Move, trigger, receive, queued, triggers, fresh, received, run-triggers}
use ad_nope.Api.Refreshing
use ad_nope.App.Updater.{
  TimerLibrary, update_interval, first_timer, after_tick, Updater, Event, triggered, scheduled,
  forced, on_trigger, on_tick, on_message, on_end, Runs, done, next,
}

-- No round starts so late that the next one would be past the last instant.
abbrev pub InRange : ℕ → ℕ → List Event → Type 0
InRange max_instant period [] = Unit
InRange max_instant period (triggered ∷ es) = InRange max_instant period es
InRange max_instant period (scheduled now ∷ es) =
    (now + period ≤ max_instant) × InRange max_instant period es
InRange max_instant period (forced now ∷ es) =
    (now + period ≤ max_instant) × InRange max_instant period es

abbrev pub scheduled_rounds : List Event → ℕ
scheduled_rounds [] = 0
scheduled_rounds (scheduled now ∷ es) = suc (scheduled_rounds es)
scheduled_rounds (triggered ∷ es) = scheduled_rounds es
scheduled_rounds (forced now ∷ es) = scheduled_rounds es

abbrev pub forced_rounds : List Event → ℕ
forced_rounds [] = 0
forced_rounds (forced now ∷ es) = suc (forced_rounds es)
forced_rounds (triggered ∷ es) = forced_rounds es
forced_rounds (scheduled now ∷ es) = forced_rounds es

abbrev pub triggers_in : List Event → ℕ
triggers_in [] = 0
triggers_in (triggered ∷ es) = suc (triggers_in es)
triggers_in (scheduled now ∷ es) = triggers_in es
triggers_in (forced now ∷ es) = triggers_in es

-- What happens to the channel.
abbrev moves : List Event → List Move
moves [] = []
moves (triggered ∷ es) = trigger ∷ moves es
moves (scheduled now ∷ es) = moves es
moves (forced now ∷ es) = receive ∷ moves es

triggers-moves : (es : List Event) → triggers (moves es) ≡ triggers_in es
triggers-moves [] = refl
triggers-moves (triggered ∷ es) = let ih = triggers-moves es in omega arith
triggers-moves (scheduled now ∷ es) = triggers-moves es
triggers-moves (forced now ∷ es) = triggers-moves es

abbrev returned {ℓ} : {A : Type ℓ} → Outcome A → A → A
returned (returns a) d = a
returned panics d = d

module _ {max_instant : ℕ} (tokio : TimerLibrary max_instant) where
  -- Over some rounds the channel moves as the triggers and the forced rounds move it.
  run-moves :
      (u v : Updater tokio) (es : List Event) (n : ℕ)
      → Runs tokio u es v
      → Refreshing.run (moves es) (n, u.channel) ≡ (n + forced_rounds es, v.channel)
  unfolding Refreshing.run Refreshing.step
  run-moves u v es n done = ap (λ k. (k, u.channel)) (omega arith)
  run-moves u w es n (next on_trigger rest) = run-moves _ w _ n rest
  run-moves u w es n (next (on_tick now after due) rest) = run-moves _ w _ n rest
  run-moves u w es n (next {es = rs} (on_message now after got set) rest) =
      ap (λ r. Refreshing.run (moves rs) (received n u.channel r)) got
      ∙ run-moves _ w _ (n + 1) rest
      ∙ ap (λ k. (k, w.channel)) (omega arith)
  run-moves u w es n (next {es = rs} (on_end now after got set) rest) =
      ap (λ r. Refreshing.run (moves rs) (received n u.channel r)) got
      ∙ run-moves _ w _ (n + 1) rest
      ∙ ap (λ k. (k, w.channel)) (omega arith)

  -- After `k` scheduled rounds: the loop was last entered `k` periods after the start or later, and
  -- the next round is due after the start by a period more, and after that entry by at most one.
  record IsOnTime (start period k : ℕ) (u : Updater tokio) : Type 0 where
    unchanged : tokio.period u.timer ≡ period
    entered : start + k * period ≤ u.woken
    not_before : start + k * period + period ≤ tokio.due u.timer
    not_late : tokio.due u.timer ≤ u.woken + period

  reset-IsOnTime :
      (start period k now : ℕ) (u : Updater tokio) (t : tokio.Timer) (c : RefreshChannel)
      → u.woken ≤ now
      → tokio.reset now u.timer ≡ returns t
      → now + period ≤ max_instant
      → IsOnTime start period k u
      → IsOnTime start period k (record { timer = t; channel = c; woken = now })
  reset-IsOnTime start period k now u t c after set range i =
      let unchanged = i.unchanged in
      let entered = i.entered in
      let due = tokio.due-reset now u.timer t set (omega arith) in
      record {
        unchanged = tokio.period-reset now u.timer t set ∙ unchanged;
        entered = omega arith;
        not_before = omega arith;
        not_late = omega arith;
      }

  tick-IsOnTime :
      (start period k now : ℕ) (u : Updater tokio)
      → u.woken ≤ now
      → tokio.due u.timer ≤ now
      → now + period ≤ max_instant
      → IsOnTime start period k u
      → IsOnTime start period (k + 1) (record u { timer = tokio.tick now u.timer; woken = now })
  tick-IsOnTime start period k now u after due range i =
      let unchanged = i.unchanged in
      let not_before = i.not_before in
      let next_due = tokio.due-tick now u.timer due (omega arith) in
      let one_more : (k + 1) * period ≡ k * period + period = omega arith in
      record {
        unchanged = tokio.period-tick now u.timer ∙ unchanged;
        entered = omega arith;
        not_before = omega arith;
        not_late = omega arith;
      }

  run-IsOnTime :
      (start period k : ℕ) (u v : Updater tokio) (es : List Event)
      → Runs tokio u es v
      → InRange max_instant period es
      → IsOnTime start period k u
      → IsOnTime start period (k + scheduled_rounds es) v
  run-IsOnTime start period k u v es done range i =
      subst (λ m. IsOnTime start period m u) (omega arith) i
  run-IsOnTime start period k u w es (next on_trigger rest) range i =
      run-IsOnTime start period k _ w _ rest range (record {
        unchanged = i.unchanged;
        entered = i.entered;
        not_before = i.not_before;
        not_late = i.not_late;
      })
  run-IsOnTime start period k u w es (next {es = rs} (on_tick now after due) rest) (now_in, range)
        i =
      subst (λ m. IsOnTime start period m w) (omega arith)
        (run-IsOnTime start period (k + 1) _ w rs rest range
          (tick-IsOnTime start period k now u after due now_in i))
  run-IsOnTime start period k u w es (next (on_message now after got set) rest) (now_in, range) i =
      run-IsOnTime start period k _ w _ rest range
        (reset-IsOnTime start period k now u _ _ after set now_in i)
  run-IsOnTime start period k u w es (next (on_end now after got set) rest) (now_in, range) i =
      run-IsOnTime start period k _ w _ rest range
        (reset-IsOnTime start period k now u _ _ after set now_in i)

  -- A timer is made only for a period that is not 0.
  interval-made :
      (now period : ℕ) (t : tokio.Timer)
      → after_tick tokio now (tokio.interval now period) ≡ returns t
      → (u : tokio.Timer) × (tokio.tick now u ≡ t) × (tokio.due u ≡ now) × (tokio.period u ≡ period)
  interval-made now zero t made =
      cc (ap (after_tick tokio now) (sym (tokio.interval-zero now)) ∙ made)
  interval-made now (suc p) t made =
      let (u, e, due, same) = tokio.interval-positive now (suc p) (omega arith) in
      (u, ap (λ o. returned o t) (sym (ap (after_tick tokio now) e) ∙ made), due, same)

  ticked-IsOnTime :
      (now period : ℕ) (u : tokio.Timer)
      → tokio.due u ≡ now
      → tokio.period u ≡ period
      → now + period ≤ max_instant
      → IsOnTime now period 0 (record { timer = tokio.tick now u; channel = fresh; woken = now })
  ticked-IsOnTime now period u due same range =
      let next_due = tokio.due-tick now u (omega arith) (omega arith) in
      record {
        unchanged = tokio.period-tick now u ∙ same;
        entered = omega arith;
        not_before = omega arith;
        not_late = omega arith;
      }

  first_timer-IsOnTime :
      (now : ℕ) (config : Config) (t : tokio.Timer)
      → first_timer tokio now config ≡ returns t
      → now + update_interval config ≤ max_instant
      → IsOnTime now (update_interval config) 0 (record { timer = t; channel = fresh; woken = now })
  unfolding first_timer
  first_timer-IsOnTime now config t made range =
      let (u, e, due, same) = interval-made now (update_interval config) t made in
      subst
        (λ x.
          IsOnTime now (update_interval config) 0
            (record { timer = x; channel = fresh; woken = now }))
        e (ticked-IsOnTime now (update_interval config) u due same range)

  -- From the start of the updater, over any triggers and rounds that the timer and the channel allow,
  -- of which none starts within a period of the last instant of the platform: there is at most one
  -- scheduled round for each period that has passed when the loop was last entered; the next one is due
  -- at most one period after that, however often the API forced a round; and the forced rounds
  -- and the messages that are held or wait for room are together as many as the triggers.
  pub first_timer-run :
      (start : ℕ) (config : Config) (t : tokio.Timer) (es : List Event) (u : Updater tokio)
      → first_timer tokio start config ≡ returns t
      → start + update_interval config ≤ max_instant
      → InRange max_instant (update_interval config) es
      → Runs tokio (record { timer = t; channel = fresh; woken = start }) es u
      → (start + scheduled_rounds es * update_interval config ≤ u.woken)
        × (tokio.due u.timer ≤ u.woken + update_interval config)
        × (forced_rounds es + queued u.channel ≡ triggers_in es)
  first_timer-run start config t es u made first_in range runs =
      let period = update_interval config in
      let i =
        run-IsOnTime start period 0 _ u es runs range
          (first_timer-IsOnTime start config t made first_in) in
      let channel = run-moves _ u es 0 runs in
      let (all, _) = run-triggers (moves es) in
      let forced_same = ap (λ (p : ℕ × RefreshChannel). p.0) channel in
      let queued_same = ap (λ (p : ℕ × RefreshChannel). queued p.1) channel in
      let same_triggers = triggers-moves es in
      let entered = i.entered in (omega arith, i.not_late, omega arith)
