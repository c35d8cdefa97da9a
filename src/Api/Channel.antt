-- ===== src/Api/Channel.antt =====
-- Which requests to the routes of src/api/mod.rs send a message to the updater.
use ad_nope.Prelude.{
  ℕ, ◌≡◌, refl, ap, sym, ◌∙◌, Bool, true, false, String, Option, none, some, Outcome, arith, ◌==◌,
  string_eq, if◌then◌else◌,
}
use ad_nope.Db.{Sqlite, Formats}
use ad_nope.Server.Action.{resume_with, pure}
use ad_nope.Api
use ad_nope.Api.{ApiState, PauseReply, StatusReply, RefreshChannel, send}
use ad_nope.Api.Pausing.{answered-state}
use ad_nope.Api.Commands.{other_path}
use ad_nope.Api.Status.{get_status-state}
use ad_nope.Api.Routes.{
  Method, get, head, post, other, Target, found, method_not_allowed, fallback, find, routes,
  HttpRequest, Reply, stats, logs, status, resumed, paused, answer, pause_with, handle, get_stats,
  pause_blocking, resume_blocking, get_status, get_config, trigger_refresh, get_logs,
}

-- A trigger is a request with `POST` to the path of the refresh.
abbrev pub triggers_at : Method → String → Bool
triggers_at post path = path == "/api/refresh"
triggers_at _ path = false

abbrev target_triggers : Target → Bool
target_triggers (found trigger_refresh) = true
target_triggers _ = false

targeted : (m : Method) (path : String) → triggers_at m path ≡ target_triggers (find m path routes)
unfolding find
targeted get path = ground arith
targeted head path = ground arith
targeted other path = ground arith
targeted post path = ground (
  arith,
  other_path path "/api/stats" "/api/refresh" refl,
  other_path path "/api/pause" "/api/refresh" refl,
  other_path path "/api/resume" "/api/refresh" refl,
  other_path path "/api/status" "/api/refresh" refl,
  other_path path "/api/config" "/api/refresh" refl,
)

-- What a handler without the channel leaves of it.
answered-channel :
    {A B : Type 0} (o : Outcome A) (s : ApiState) (f : A → B) (c : RefreshChannel)
    → s.refresh_sender ≡ c
    → (resume_with o s (λ a. pure (f a))).1.refresh_sender ≡ c
answered-channel o s f c same =
    ap {A = ApiState} (λ t. t.refresh_sender) (answered-state o s f) ∙ same

module _ (sqlite : Sqlite) (formats : Formats) (from_json : String → Option ℕ) (max_instant : ℕ)
    {A : Type 0} (assets : String → Option A) where
  pause_with-channel :
      (now : ℕ) (body : Option ℕ) (s : ApiState)
      → (pause_with sqlite formats from_json max_instant assets now body s).1.refresh_sender
        ≡ s.refresh_sender
  unfolding Api.pause_blocking
  pause_with-channel now none s = refl
  pause_with-channel now (some minutes) s =
      answered-channel {B = Reply A} (Api.pause_blocking max_instant now minutes s).0
        (Api.pause_blocking max_instant now minutes s).1 (λ p. paused p) s.refresh_sender
        (answered-channel _ _ _ _ refl)

  answer-channel :
      (r : HttpRequest) (t : Target) (s : ApiState)
      → (answer sqlite formats from_json max_instant assets r t s).1.refresh_sender
        ≡ (if target_triggers t then send s.refresh_sender else s.refresh_sender)
  unfolding Api.get_config Api.trigger_refresh Api.resume Api.stats Api.logs
  answer-channel r (found pause_blocking) s = pause_with-channel r.first (from_json r.body) s
  answer-channel r (found resume_blocking) s =
      answered-channel {B = Reply A} (Api.resume s).0 (Api.resume s).1 (λ text. resumed text)
        s.refresh_sender (answered-channel _ _ _ _ refl)
  answer-channel r (found get_status) s =
      answered-channel {B = Reply A} (Api.get_status r.first r.second s).0
        (Api.get_status r.first r.second s).1 (λ reply. status reply) s.refresh_sender
        (ap {A = ApiState} (λ t. t.refresh_sender) (get_status-state r.first r.second s))
  answer-channel r (found get_stats) s =
      answered-channel {B = Reply A} (Api.stats sqlite formats r.clocks s).0
        (Api.stats sqlite formats r.clocks s).1 (λ snapshot. stats snapshot) s.refresh_sender refl
  answer-channel r (found get_logs) s =
      answered-channel {B = Reply A} (Api.logs sqlite formats s).0 (Api.logs sqlite formats s).1
        (λ entries. logs entries) s.refresh_sender refl
  answer-channel r (found get_config) s = refl
  answer-channel r (found trigger_refresh) s = refl
  answer-channel r method_not_allowed s = refl
  answer-channel r fallback s = refl

  pub handle-channel :
      (r : HttpRequest) (s : ApiState)
      → (handle sqlite formats from_json max_instant assets r s).1.refresh_sender
        ≡ (if triggers_at r.method r.path then send s.refresh_sender else s.refresh_sender)
  unfolding handle
  handle-channel r s =
      answer-channel r (find r.method r.path routes) s
      ∙ ap (λ b. if b then send s.refresh_sender else s.refresh_sender)
          (sym (targeted r.method r.path))
