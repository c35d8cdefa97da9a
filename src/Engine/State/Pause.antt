-- ===== src/Engine/State/Pause.antt =====
-- When the blocking is paused: the last command decides, and a panic under the lock is for good.
use ad_nope.Prelude.{
  ℕ, ◌+◌, ◌-◌, ◌/◌, ◌≤◌, ◌<◌, ◌≡◌, refl, ap, ◌∙◌, true, false, not, Option, none, some, List, [],
  ◌∷◌, returns, panics, ltb, arith, if◌then◌else◌,
}
use ad_nope.Engine.State.{
  AppState, new, active_at, is_blocking_active, pause_blocking, resume_blocking,
  get_pause_remaining_secs, nanos_per_sec,
}

-- For every pause that does not reach past the last instant, on a lock that is not poisoned: at every
-- time the blocking is off exactly before the end of the pause, and the whole seconds that remain are
-- told exactly then.
pub pause_window :
    (max_instant : ℕ) (s : AppState) (now duration t : ℕ)
    → s.poisoned ≡ false
    → now + duration ≤ max_instant
    → (is_blocking_active (pause_blocking max_instant s now duration).1 t
        ≡ returns (not (ltb t (now + duration))))
      × (get_pause_remaining_secs (pause_blocking max_instant s now duration).1 t
          ≡ returns (
              if ltb t (now + duration) then some ((now + duration - t) / nanos_per_sec) else none))
unfolding is_blocking_active pause_blocking get_pause_remaining_secs
pause_window max_instant s now duration t safe fits = (ground arith, ground arith)

pub pause_blocking-safe :
    (max_instant now duration : ℕ) (a : AppState)
    → a.poisoned ≡ false
    → now + duration ≤ max_instant
    → (pause_blocking max_instant a now duration).1.poisoned ≡ false
unfolding pause_blocking
pause_blocking-safe max_instant now duration a safe fits = ground arith

pub resume_blocking-safe :
    (a : AppState) → a.poisoned ≡ false → (resume_blocking a).1.poisoned ≡ false
unfolding resume_blocking
resume_blocking-safe a safe = ground arith

-- What the API does to the state.
pub data Command : Type 0 where
  pause : ℕ → ℕ → Command
  resume : Command

unfoldable pub step : ℕ → AppState → Command → AppState
step max_instant s (pause now duration) = (pause_blocking max_instant s now duration).1
step max_instant s resume = (resume_blocking s).1

unfoldable pub run : ℕ → AppState → List Command → AppState
run max_instant s [] = s
run max_instant s (c ∷ cs) = run max_instant (step max_instant s c) cs

abbrev pub Fits : ℕ → List Command → Type 0
Fits max_instant [] = Unit
Fits max_instant (pause now duration ∷ cs) = (now + duration ≤ max_instant) × Fits max_instant cs
Fits max_instant (resume ∷ cs) = Fits max_instant cs

-- The end of the pause that the last command leaves.
abbrev pub last_until : Option ℕ → List Command → Option ℕ
last_until until [] = until
last_until until (pause now duration ∷ cs) = last_until (some (now + duration)) cs
last_until until (resume ∷ cs) = last_until none cs

pub run-until :
    (max_instant : ℕ) (s : AppState) (cs : List Command)
    → s.poisoned ≡ false
    → Fits max_instant cs
    → ((run max_instant s cs).poisoned ≡ false)
      × ((run max_instant s cs).blocking_paused_until ≡ last_until s.blocking_paused_until cs)
unfolding run step pause_blocking resume_blocking
run-until max_instant s [] safe fits = (safe, refl)
run-until max_instant s (pause now duration ∷ cs) safe fits =
    let ih =
      run-until max_instant (step max_instant s (pause now duration)) cs (ground arith) fits.1 in
    (ih.0, ih.1 ∙ ap (λ u. last_until u cs) (ground arith))
run-until max_instant s (resume ∷ cs) safe fits =
    let ih = run-until max_instant (step max_instant s resume) cs (ground arith) fits in
    (ih.0, ih.1 ∙ ap (λ u. last_until u cs) (ground arith))

-- After any pauses and resumes from the start, none of which reaches past the last instant, the
-- blocking is active at every time except before the end that the last command set, and asking
-- for it does not panic.
pub run-is_blocking_active :
    (max_instant : ℕ) (cs : List Command) (t : ℕ)
    → Fits max_instant cs
    → is_blocking_active (run max_instant new cs) t ≡ returns (active_at (last_until none cs) t)
unfolding is_blocking_active new
run-is_blocking_active max_instant cs t fits =
    let h = run-until max_instant new cs refl fits in
    rw (h.0, is_blocking_active) (ap (λ u. returns (active_at u t)) h.1)

-- Every call on the state panics.
pub record IsDead (max_instant : ℕ) (s : AppState) : Type 0 where
  pub query : (t : ℕ) → is_blocking_active s t ≡ panics
  pub status : (t : ℕ) → get_pause_remaining_secs s t ≡ panics
  pub pausing : (t d : ℕ) → (pause_blocking max_instant s t d).0 ≡ panics
  pub resuming : (resume_blocking s).0 ≡ panics

poisoned-IsDead : (max_instant : ℕ) (s : AppState) → s.poisoned ≡ true → IsDead max_instant s
unfolding is_blocking_active get_pause_remaining_secs pause_blocking resume_blocking
poisoned-IsDead max_instant s h = record {
  query = λ t. ground arith;
  status = λ t. ground arith;
  pausing = λ t d. ground arith;
  resuming = ground arith;
}

run-poisoned :
    (max_instant : ℕ) (s : AppState) (cs : List Command)
    → s.poisoned ≡ true
    → (run max_instant s cs).poisoned ≡ true
unfolding run step pause_blocking resume_blocking
run-poisoned max_instant s [] h = h
run-poisoned max_instant s (pause now duration ∷ cs) h =
    run-poisoned max_instant (step max_instant s (pause now duration)) cs (ground arith)
run-poisoned max_instant s (resume ∷ cs) h =
    run-poisoned max_instant (step max_instant s resume) cs (ground arith)

-- A pause that reaches past the last instant panics, and whatever pauses and resumes follow, every
-- later call panics: the check that each query makes, the status, a pause and a resume.
pub pause_overflow-IsDead :
    (max_instant : ℕ) (s : AppState) (now duration : ℕ) (cs : List Command)
    → max_instant < now + duration
    → ((pause_blocking max_instant s now duration).0 ≡ panics)
      × IsDead max_instant (run max_instant (pause_blocking max_instant s now duration).1 cs)
unfolding pause_blocking
pause_overflow-IsDead max_instant s now duration cs over = (
  ground arith,
  poisoned-IsDead max_instant _
      (run-poisoned max_instant (pause_blocking max_instant s now duration).1 cs (ground arith)),
)
