-- ===== src/Api/Pausing.antt =====
-- The pause over the API of src/api/mod.rs.
use ad_nope.Prelude.{
  ℕ, ◌+◌, ◌-◌, ◌*◌, ◌/◌, ◌≤◌, ◌<◌, ◌≡◌, refl, ap, ◌∙◌, Bool, true, false, Option, none, some,
  returns, panics, Outcome, ltb, arith, if◌then◌else◌,
}
use ad_nope.Prelude.Words.{u64_mod}
use ad_nope.Engine.State
use ad_nope.Engine.State.{
  AppState, from_secs, nanos_per_sec, is_blocking_active, get_pause_remaining_secs, unwrap,
  active_at, remaining_secs,
}
use ad_nope.Engine.State.Pause.{pause_window}
use ad_nope.Server.Action.{resume_with, pure}
use ad_nope.Api.{ApiState, StatusReply, pause_seconds, pause_blocking, get_status}

pub get_status-returns :
    (first second : ℕ) (s : ApiState) (active : Bool) (remaining : Option ℕ)
    → is_blocking_active s.engine first ≡ returns active
    → get_pause_remaining_secs s.engine second ≡ returns remaining
    → (get_status first second s).0
      ≡ returns record { blocking_active = active; pause_remaining_secs = remaining }
unfolding get_status
get_status-returns first second s active remaining a r = rw (a, r) refl

pub seconds_small : (minutes : ℕ) → minutes * 60 < u64_mod → pause_seconds minutes ≡ minutes * 60
unfolding pause_seconds
seconds_small minutes small = omega arith

pub answered-state :
    {A B S : Type 0} (o : Outcome A) (s : S) (f : A → B) → (resume_with o s (λ a. pure (f a))).1 ≡ s
answered-state (returns a) s f = refl
answered-state panics s f = refl

pub pause_blocking-engine :
    (max_instant now minutes : ℕ) (s : ApiState)
    → (pause_blocking max_instant now minutes s).1.engine
      ≡ (State.pause_blocking max_instant s.engine now (from_secs (pause_seconds minutes))).1
unfolding pause_blocking
pause_blocking-engine max_instant now minutes s =
    ap {A = ApiState} (λ t. t.engine) (answered-state _ _ _)

-- After a pause of some minutes that neither overflows nor reaches past the last instant, the status
-- says at every time before its end that the blocking is off, with the whole seconds that remain, and
-- at every time from then on that it is on.
pub get_status-pause_blocking :
    (max_instant now minutes t : ℕ) (s : ApiState)
    → minutes * 60 < u64_mod
    → now + from_secs (minutes * 60) ≤ max_instant
    → s.engine.poisoned ≡ false
    → (get_status t t (pause_blocking max_instant now minutes s).1).0
      ≡ returns (
          if ltb t (now + from_secs (minutes * 60))
          then record {
            blocking_active = false;
            pause_remaining_secs = some ((now + from_secs (minutes * 60) - t) / nanos_per_sec);
          }
          else record { blocking_active = true; pause_remaining_secs = none })
get_status-pause_blocking max_instant now minutes t s small fits safe =
    let after =
      pause_blocking-engine max_instant now minutes s
      ∙ ap (λ d. (State.pause_blocking max_instant s.engine now (from_secs d)).1)
          (seconds_small minutes small) in
    let window = pause_window max_instant s.engine now (from_secs (minutes * 60)) t safe fits in
    let active = ap (λ e. is_blocking_active e t) after ∙ window.0 in
    let remaining = ap (λ e. get_pause_remaining_secs e t) after ∙ window.1 in
    get_status-returns t t (pause_blocking max_instant now minutes s).1 _ _ active remaining
    ∙ ground arith

remaining_secs-none :
    (until : Option ℕ) (first second : ℕ)
    → first ≤ second
    → active_at until first ≡ true
    → remaining_secs until second ≡ none
unfolding active_at remaining_secs
remaining_secs-none none first second le h = refl
remaining_secs-none (some until) first second le h = ground arith

-- A status that says that the blocking is on tells no remaining time, whatever time passes between
-- the two readings of the clock.
get_status-active :
    (first second : ℕ) (s t : ApiState) (reply : StatusReply)
    → first ≤ second
    → get_status first second s ≡ (returns reply, t)
    → reply.blocking_active ≡ true
    → reply.pause_remaining_secs ≡ none
unfolding get_status is_blocking_active get_pause_remaining_secs unwrap
get_status-active first second s t reply le h active =
    ground (arith, remaining_secs-none s.engine.blocking_paused_until first second le)
