-- ===== src/Api/Status.antt =====
-- What the handlers of src/api/mod.rs do to the engine, and the status that the API reports.
use ad_nope.Prelude.{
  ℕ, ◌<◌, ◌≡◌, refl, ap, sym, ◌∙◌, false, String, Option, none, some, Outcome, returns, arith,
  string_eq,
}
use mathlib.Core.Path.{subst}
use ad_nope.Prelude.Words.{u64_mod}
use ad_nope.Db.{Sqlite, Formats}
use ad_nope.Engine.State
use ad_nope.Engine.State.{
  AppState, from_secs, active_at, remaining_secs, is_blocking_active, get_pause_remaining_secs,
  unwrap,
}
use ad_nope.Engine.State.Pause
use ad_nope.Engine.State.Pause.{Command, pause, resume, last_until, run-until}
use ad_nope.Server.Action.{resume_with, pure}
use ad_nope.Api
use ad_nope.Api.{ApiState, StatusReply}
use ad_nope.Api.Source.{Clocks}
use ad_nope.Api.Pausing.{get_status-returns, pause_blocking-engine, seconds_small, answered-state}
use ad_nope.Api.Routes.{
  get, Target, found, method_not_allowed, fallback, find, routes, HttpRequest, Reply, stats, logs,
  status, resumed, paused, answer, pause_with, handle, get_stats, pause_blocking, resume_blocking,
  get_status, get_config, trigger_refresh, get_logs,
}
use ad_nope.Api.Commands.{commands_of, pause_of, target_commands, targeted}

resume-engine : (s : ApiState) → (Api.resume s).1.engine ≡ (State.resume_blocking s.engine).1
unfolding Api.resume
resume-engine s =
    ap {A = ApiState} (λ t. t.engine)
      (answered-state (State.resume_blocking s.engine).0
        (record s { engine = (State.resume_blocking s.engine).1 }) (λ _. "resumed"))

pub get_status-state : (first second : ℕ) (s : ApiState) → (Api.get_status first second s).1 ≡ s
unfolding Api.get_status State.is_blocking_active State.get_pause_remaining_secs State.unwrap
get_status-state first second s = ground arith

status_found : find get "/api/status" routes ≡ found get_status
unfolding find
status_found = refl

status-returns :
    (first second : ℕ) (s : ApiState) (until : Option ℕ)
    → s.engine.poisoned ≡ false
    → s.engine.blocking_paused_until ≡ until
    → (Api.get_status first second s).0
      ≡ returns (record {
        blocking_active = active_at until first;
        pause_remaining_secs = remaining_secs until second;
      })
unfolding is_blocking_active get_pause_remaining_secs unwrap
status-returns first second s until safe same =
    get_status-returns first second s _ _
      (rw (safe, unwrap) (ap (λ u. returns (active_at u first)) same))
      (rw (safe, unwrap) (ap (λ u. returns (remaining_secs u second)) same))

module _ (sqlite : Sqlite) (formats : Formats) (from_json : String → Option ℕ) (max_instant : ℕ)
    {A : Type 0} (assets : String → Option A) where
  stats-engine :
      (clocks : Clocks) (s : ApiState) → (Api.stats sqlite formats clocks s).1.engine ≡ s.engine
  unfolding Api.stats
  stats-engine clocks s = refl

  logs-engine : (s : ApiState) → (Api.logs sqlite formats s).1.engine ≡ s.engine
  unfolding Api.logs
  logs-engine s = refl

  pause_with-engine :
      (now : ℕ) (body : Option ℕ) (s : ApiState)
      → max_instant < from_secs u64_mod
      → Pause.Fits max_instant (pause_of now body)
      → (pause_with sqlite formats from_json max_instant assets now body s).1.engine
        ≡ Pause.run max_instant s.engine (pause_of now body)
  unfolding Pause.run Pause.step
  pause_with-engine now none s platform fits = refl
  pause_with-engine now (some minutes) s platform fits =
      ap {A = ApiState} (λ t. t.engine)
        (answered-state {B = Reply A} (Api.pause_blocking max_instant now minutes s).0
          (Api.pause_blocking max_instant now minutes s).1 (λ p. paused p))
      ∙ pause_blocking-engine max_instant now minutes s
      ∙ ap (λ d. (State.pause_blocking max_instant s.engine now (from_secs d)).1)
          (seconds_small minutes (omega arith))

  answer-engine :
      (r : HttpRequest) (t : Target) (s : ApiState)
      → max_instant < from_secs u64_mod
      → Pause.Fits max_instant (target_commands from_json r t)
      → (answer sqlite formats from_json max_instant assets r t s).1.engine
        ≡ Pause.run max_instant s.engine (target_commands from_json r t)
  unfolding Pause.run Pause.step Api.get_config Api.trigger_refresh
  answer-engine r (found pause_blocking) s platform fits =
      pause_with-engine r.first (from_json r.body) s platform fits
  answer-engine r (found resume_blocking) s platform fits =
      ap {A = ApiState} (λ t. t.engine)
        (answered-state {B = Reply A} (Api.resume s).0 (Api.resume s).1 (λ text. resumed text))
      ∙ resume-engine s
  answer-engine r (found get_status) s platform fits =
      ap {A = ApiState} (λ t. t.engine)
        (answered-state {B = Reply A} (Api.get_status r.first r.second s).0
            (Api.get_status r.first r.second s).1 (λ reply. status reply)
          ∙ get_status-state r.first r.second s)
  answer-engine r (found get_stats) s platform fits =
      ap {A = ApiState} (λ t. t.engine)
        (answered-state {B = Reply A} (Api.stats sqlite formats r.clocks s).0
          (Api.stats sqlite formats r.clocks s).1 (λ snapshot. stats snapshot))
      ∙ stats-engine r.clocks s
  answer-engine r (found get_logs) s platform fits =
      ap {A = ApiState} (λ t. t.engine)
        (answered-state {B = Reply A} (Api.logs sqlite formats s).0 (Api.logs sqlite formats s).1
          (λ entries. logs entries))
      ∙ logs-engine s
  answer-engine r (found get_config) s platform fits = refl
  answer-engine r (found trigger_refresh) s platform fits = refl
  answer-engine r method_not_allowed s platform fits = refl
  answer-engine r fallback s platform fits = refl

  pub handle-engine :
      (r : HttpRequest) (s : ApiState)
      → max_instant < from_secs u64_mod
      → Pause.Fits max_instant (commands_of from_json r)
      → (handle sqlite formats from_json max_instant assets r s).1.engine
        ≡ Pause.run max_instant s.engine (commands_of from_json r)
  unfolding handle
  handle-engine r s platform fits =
      let same = targeted from_json r in
      answer-engine r (find r.method r.path routes) s platform
        (subst (Pause.Fits max_instant) same fits)
      ∙ ap (Pause.run max_instant s.engine) (sym same)

  -- The status, on a lock that is not poisoned.
  pub handle-status :
      (r : HttpRequest) (s : ApiState) (until : Option ℕ)
      → s.engine.poisoned ≡ false
      → s.engine.blocking_paused_until ≡ until
      → r.method ≡ get
      → r.path ≡ "/api/status"
      → (handle sqlite formats from_json max_instant assets r s).0
        ≡ returns (
            status (record {
              blocking_active = active_at until r.first;
              pause_remaining_secs = remaining_secs until r.second;
            }))
  unfolding handle
  handle-status r s until safe same method path =
      let at_status =
        ap (λ m. find m r.path routes) method ∙ ap (λ p. find get p routes) path ∙ status_found in
      ap (λ (target : Target). (answer sqlite formats from_json max_instant assets r target s).0)
        at_status
      ∙ ap
          (λ (o : Outcome StatusReply).
            (resume_with {B = Reply A} o (Api.get_status r.first r.second s).1
              (λ a. pure (status a))).0)
          (status-returns r.first r.second s until safe same)
