-- ===== src/Api/Commands.antt =====
-- What requests to the routes of src/api/mod.rs do to the pause.
use ad_nope.Prelude.{
  ℕ, ◌*◌, ◌≡◌, refl, ap, ◌∙◌, true, false, String, Option, none, some, List, [], ◌∷◌, ◌++◌, arith,
  ◌==◌, ==_iff, string_eq, if◌then◌else◌,
}
use ad_nope.Engine.State.{AppState, from_secs}
use ad_nope.Engine.State.Pause
use ad_nope.Engine.State.Pause.{Command, pause, resume, last_until, run-until}
use ad_nope.Api.Routes.{
  Method, get, head, post, other, Target, found, find, routes, HttpRequest, pause_blocking,
  resume_blocking,
}

-- The pause of so many minutes, or no command if the body is rejected.
abbrev pub pause_of : ℕ → Option ℕ → List Command
pause_of now none = []
pause_of now (some minutes) = pause now (from_secs (minutes * 60)) ∷ []

-- What a request with `POST` commands.
abbrev pub posted : (String → Option ℕ) → HttpRequest → String → List Command
posted from_json r path =
    if path == "/api/pause"
    then pause_of r.first (from_json r.body)
    else if path == "/api/resume"
    then resume ∷ []
    else []

-- What a request commands: nothing with another method.
abbrev pub method_commands : (String → Option ℕ) → HttpRequest → Method → String → List Command
method_commands from_json r post path = posted from_json r path
method_commands from_json r _ path = []

abbrev pub commands_of : (String → Option ℕ) → HttpRequest → List Command
commands_of from_json r = method_commands from_json r r.method r.path

-- What the handler behind a target commands.
abbrev pub target_commands : (String → Option ℕ) → HttpRequest → Target → List Command
target_commands from_json r (found pause_blocking) = pause_of r.first (from_json r.body)
target_commands from_json r (found resume_blocking) = resume ∷ []
target_commands from_json r _ = []

-- A path is no other path.
pub other_path : (path a b : String) → (b == a) ≡ false → (path == b) ≡ true → (path == a) ≡ false
other_path path a b differ same = ap (λ p. p == a) ((==_iff path b).0 same) ∙ differ

targeted_path :
    (from_json : String → Option ℕ) (r : HttpRequest) (m : Method) (path : String)
    → method_commands from_json r m path ≡ target_commands from_json r (find m path routes)
unfolding find
targeted_path from_json r get path = ground arith
targeted_path from_json r head path = ground arith
targeted_path from_json r other path = ground arith
targeted_path from_json r post path = ground (
  arith,
  other_path path "/api/stats" "/api/pause" refl,
  other_path path "/api/stats" "/api/resume" refl,
)

pub targeted :
    (from_json : String → Option ℕ) (r : HttpRequest)
    → commands_of from_json r ≡ target_commands from_json r (find r.method r.path routes)
targeted from_json r = targeted_path from_json r r.method r.path

pub run-++ :
    (max_instant : ℕ) (s : AppState) (cs ds : List Command)
    → Pause.run max_instant s (cs ++ ds) ≡ Pause.run max_instant (Pause.run max_instant s cs) ds
unfolding Pause.run
run-++ max_instant s [] ds = refl
run-++ max_instant s (c ∷ cs) ds = run-++ max_instant (Pause.step max_instant s c) cs ds

pub Fits-++ :
    (max_instant : ℕ) (cs ds : List Command)
    → Pause.Fits max_instant (cs ++ ds)
    → Pause.Fits max_instant cs × Pause.Fits max_instant ds
Fits-++ max_instant [] ds h = (tt, h)
Fits-++ max_instant (pause now duration ∷ cs) ds (h, hs) =
    let (a, b) = Fits-++ max_instant cs ds hs in ((h, a), b)
Fits-++ max_instant (resume ∷ cs) ds h = Fits-++ max_instant cs ds h
