-- ===== src/Server/Tasks/Turns.antt =====
-- What the turns of the tasks of src/server/dns_request_handler.rs leave as it is.
use ad_nope.Prelude.{
  ℕ, zero, suc, ◌+◌, ◌≤◌, ◌≡◌, ◌≢◌, refl, ap, Bool, true, false, List, [], ◌∷◌, Option, none, some,
  Outcome, returns, panics, Result, ◌==◌, string_eq, if◌then◌else◌, arith, get_elem?, get_or,
  nat_eq,
}
use ad_nope.Dns.{Record, type_eq}
use ad_nope.Resolver.{Answer}
use ad_nope.Server.Interfaces.{DnsResolver, CacheLibrary, NameParser, Key}
use ad_nope.Server.Cache.{Response, Server, check_cache, cache_answer}
use ad_nope.Server.Caching.{cache_answer-IsStored}
use ad_nope.Server.Query.{QueryContext, LogContext, Request, Clock, Handler, get_query_info}
use ad_nope.Server.Handler.{count_query, count_domain}
use ad_nope.Server.Handler.Responses.{log_query, count_blocked}
use ad_nope.Server.Tasks.{
  Pc, received, named, unanswered, active, unblocked, missed, resolved, answering, sent, done,
  panicked, after_info, after_blocklist, after_cache, sending, advance,
}
use ad_nope.Server.Tasks.System
use ad_nope.Server.Tasks.System.{
  Stage, asking, inserting, over, Task, serving, refreshing, Turn, turn, changed, paused, resumed,
  task_step, run_at, step, run,
}

-- The turns of the task at a place.
abbrev pub turns_of : ℕ → List Turn → ℕ
turns_of i [] = 0
turns_of i (turn j ∷ ts) = let rest = turns_of i ts in if j == i then suc rest else rest
turns_of i (changed blocklist ∷ ts) = turns_of i ts
turns_of i (paused now duration ∷ ts) = turns_of i ts
turns_of i (resumed ∷ ts) = turns_of i ts

-- No pause reaches past the last instant.
abbrev pub Fits : ℕ → List Turn → Type 0
Fits max_instant [] = Unit
Fits max_instant (turn j ∷ ts) = Fits max_instant ts
Fits max_instant (changed blocklist ∷ ts) = Fits max_instant ts
Fits max_instant (paused now duration ∷ ts) = (now + duration ≤ max_instant) × Fits max_instant ts
Fits max_instant (resumed ∷ ts) = Fits max_instant ts

module _ (dns : DnsResolver) (moka : CacheLibrary) (names : NameParser) (max_instant : ℕ)
    (h : Handler) where
  -- No task changes the pause.
  cache_answer-app_state :
      (now : ℕ) (key : Key) (r : Result Answer) (s : Server dns moka)
      → (cache_answer dns moka h.config now key r s).1.app_state ≡ s.app_state
  cache_answer-app_state now key r s =
      ap (λ (t : Server dns moka). t.app_state)
        (cache_answer-IsStored dns moka h.config now key r s).1

  module _ (clock : Clock) (request : Request) where
    after_info-app_state :
        (o : Outcome QueryContext) (s : Server dns moka)
        → (after_info dns moka names h clock request o s).1.app_state ≡ s.app_state
    unfolding count_domain
    after_info-app_state panics s = refl
    after_info-app_state (returns q) s = refl

    after_blocklist-app_state :
        (query : QueryContext) (listed : Option ℕ) (s : Server dns moka)
        → (after_blocklist dns moka names h clock request query listed s).1.app_state ≡ s.app_state
    unfolding count_blocked
    after_blocklist-app_state query none s = refl
    after_blocklist-app_state query (some source_id) s = refl

    after_cache-app_state :
        (query : QueryContext) (found : Option (List Record × Bool × Option ℕ))
        (s : Server dns moka)
        → (after_cache dns moka names h clock request query found s).1.app_state ≡ s.app_state
    after_cache-app_state query none s = refl
    after_cache-app_state query (some (records, is_stale, ttl)) s = refl

    sending-app_state :
        (query : QueryContext) (b : Bool) (log : LogContext) (info : Response) (s : Server dns moka)
        → (sending dns moka names h clock request b query log info s).1.app_state ≡ s.app_state
    sending-app_state query true log info s = refl
    sending-app_state query false log info s = refl

    log_query-app_state :
        (query : QueryContext) (log : LogContext) (s : Server dns moka)
        → (log_query dns moka names h clock request query log s).app_state ≡ s.app_state
    unfolding log_query
    log_query-app_state query log s = ground arith

    advance-app_state :
        (pc : Pc) (s : Server dns moka)
        → (advance dns moka names h clock request pc s).1.app_state ≡ s.app_state
    unfolding advance count_query check_cache
    advance-app_state received s = after_info-app_state (get_query_info clock request) _
    advance-app_state (named query) s = refl
    advance-app_state (unanswered query) s = refl
    advance-app_state (active query) s = after_blocklist-app_state query _ s
    advance-app_state (unblocked query) s = after_cache-app_state query _ _
    advance-app_state (missed query) s = refl
    advance-app_state (resolved query r) s = cache_answer-app_state _ _ r s
    advance-app_state (answering query code records log) s = sending-app_state query _ _ _ s
    advance-app_state (sent query log info) s = log_query-app_state query log s
    advance-app_state (done info) s = refl
    advance-app_state panicked s = refl

  refresh-app_state :
      (now : ℕ) (key : Key) (stage : Stage) (s : Server dns moka)
      → (System.refresh_step dns moka names max_instant h now key stage s).1.app_state ≡ s.app_state
  refresh-app_state now key asking s = refl
  refresh-app_state now key (inserting r) s = cache_answer-app_state now key r s
  refresh-app_state now key over s = refl

  task_step-app_state :
      (t : Task) (s : Server dns moka)
      → (task_step dns moka names max_instant h t s).1.app_state ≡ s.app_state
  unfolding task_step
  task_step-app_state (serving clock request pc) s = advance-app_state clock request pc s
  task_step-app_state (refreshing now key stage) s = refresh-app_state now key stage s

  pub run_at-app_state :
      (i : ℕ) (ts : List Task) (s : Server dns moka)
      → (run_at dns moka names max_instant h i ts s).1.app_state ≡ s.app_state
  unfolding run_at
  run_at-app_state i [] s = refl
  run_at-app_state zero (t ∷ ts) s = task_step-app_state t s
  run_at-app_state (suc i) (t ∷ ts) s = run_at-app_state i ts s

  -- A turn moves the task at its place, and no other.
  pub get_elem?-run_at :
      (i : ℕ) (ts : List Task) (s : Server dns moka) (t : Task)
      → get_elem? ts i ≡ some t
      → get_elem? (run_at dns moka names max_instant h i ts s).0 i
        ≡ some (task_step dns moka names max_instant h t s).0
  unfolding run_at
  get_elem?-run_at i [] s t e = cc e
  get_elem?-run_at zero (u ∷ ts) s t e =
      ap (λ (o : Option Task). some (task_step dns moka names max_instant h (get_or o t) s).0) e
  get_elem?-run_at (suc i) (u ∷ ts) s t e = get_elem?-run_at i ts s t e

  pub get_elem?-run_at_ne :
      (i j : ℕ) (ts : List Task) (s : Server dns moka)
      → j ≢ i
      → get_elem? (run_at dns moka names max_instant h j ts s).0 i ≡ get_elem? ts i
  unfolding run_at
  get_elem?-run_at_ne i j [] s ne = refl
  get_elem?-run_at_ne zero zero (u ∷ ts) s ne = absurd (ne refl)
  get_elem?-run_at_ne zero (suc j) (u ∷ ts) s ne = refl
  get_elem?-run_at_ne (suc i) zero (u ∷ ts) s ne = refl
  get_elem?-run_at_ne (suc i) (suc j) (u ∷ ts) s ne =
      get_elem?-run_at_ne i j ts s (λ e. ne (ap suc e))
