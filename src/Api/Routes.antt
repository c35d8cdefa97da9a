-- ===== src/Api/Routes.antt =====
-- `start_api_server` of src/api/mod.rs: the routes and the handler behind each. A path stands for
-- itself; a route for `get` answers `HEAD` as well, a known path with another method is not allowed,
-- and any other path goes to the embedded files.
use ad_nope.Prelude.{
  ℕ, String, Bool, true, false, Option, none, some, List, [], ◌∷◌, ◌==◌, string_eq, if◌then◌else◌,
}
use ad_nope.Config.{Config}
use ad_nope.Db.{Sqlite, Formats}
use ad_nope.Logger.{QueryLogEntry}
use ad_nope.Stats.{StatsSnapshot}
use ad_nope.Server.Action.{Action, ◌>>=◌, pure}
use ad_nope.Api
use ad_nope.Api.{ApiState, PauseReply, StatusReply, static_handler}
use ad_nope.Api.Source.{Clocks}

pub data Method : Type 0 where
  get head post other : Method

pub data Endpoint : Type 0 where
  get_stats pause_blocking resume_blocking get_status get_config trigger_refresh get_logs : Endpoint

-- A path, whether it is a route for `post` and not for `get`, and the handler.
pub record Route : Type 0 where
  pub path : String
  pub posted : Bool
  pub endpoint : Endpoint

abbrev pub routes : List Route
routes =
    record { path = "/api/stats"; posted = false; endpoint = get_stats }
    ∷ record { path = "/api/pause"; posted = true; endpoint = pause_blocking }
    ∷ record { path = "/api/resume"; posted = true; endpoint = resume_blocking }
    ∷ record { path = "/api/status"; posted = false; endpoint = get_status }
    ∷ record { path = "/api/config"; posted = false; endpoint = get_config }
    ∷ record { path = "/api/refresh"; posted = true; endpoint = trigger_refresh }
    ∷ record { path = "/api/logs"; posted = false; endpoint = get_logs }
    ∷ []

pub data Target : Type 0 where
  found : Endpoint → Target
  method_not_allowed fallback : Target

-- Whether a route for `post`, or else for `get`, takes the method.
abbrev pub takes : Bool → Method → Bool
takes false get = true
takes false head = true
takes true post = true
takes _ _ = false

unfoldable pub find : Method → String → List Route → Target
find method path [] = fallback
find method path (route ∷ rest) =
    let later = find method path rest in
    if path == route.path
    then if takes route.posted method then found route.endpoint else method_not_allowed
    else later

-- A request with the content type and the body as one text, the instants that the engine reads and the
-- seconds that the clocks show for it.
pub record HttpRequest : Type 0 where
  pub method : Method
  pub path : String
  pub body : String
  pub first : ℕ
  pub second : ℕ
  pub clocks : Clocks

-- What is sent back: the value that is encoded, an embedded file, or an error of the router.
pub data Reply (A : Type 0) : Type 0 where
  stats : StatsSnapshot → Reply A
  paused : PauseReply → Reply A
  resumed : String → Reply A
  status : StatusReply → Reply A
  config : Config → Reply A
  refreshed : String → Reply A
  logs : List QueryLogEntry → Reply A
  file : A → Reply A
  not_found not_allowed rejected : Reply A

abbrev pub file_or_not_found : {A : Type 0} → Option A → Reply A
file_or_not_found none = not_found
file_or_not_found (some content) = file content

-- `from_json` is the decoding of the body of a pause, which yields the minutes or rejects the request.
module _ (sqlite : Sqlite) (formats : Formats) (from_json : String → Option ℕ) (max_instant : ℕ)
    {A : Type 0} (assets : String → Option A) where
  abbrev pub pause_with : ℕ → Option ℕ → Action ApiState (Reply A)
  pause_with now none = pure rejected
  pause_with now (some minutes) =
      Api.pause_blocking max_instant now minutes >>= λ r. pure (paused r)

  abbrev pub answer : HttpRequest → Target → Action ApiState (Reply A)
  answer r (found get_stats) =
      Api.stats sqlite formats r.clocks >>= λ snapshot. pure (stats snapshot)
  answer r (found pause_blocking) = pause_with r.first (from_json r.body)
  answer r (found resume_blocking) = Api.resume >>= λ text. pure (resumed text)
  answer r (found get_status) = Api.get_status r.first r.second >>= λ reply. pure (status reply)
  answer r (found get_config) = Api.get_config >>= λ c. pure (config c)
  answer r (found trigger_refresh) = Api.trigger_refresh >>= λ text. pure (refreshed text)
  answer r (found get_logs) = Api.logs sqlite formats >>= λ entries. pure (logs entries)
  answer r method_not_allowed = pure not_allowed
  answer r fallback = pure (file_or_not_found (static_handler assets r.path))

  -- The web server on one request.
  unfoldable pub handle : HttpRequest → Action ApiState (Reply A)
  unfolding find
  handle r = answer r (find r.method r.path routes)
