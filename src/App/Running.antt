-- ===== src/App/Running.antt =====
-- What holds of the server of src/main.rs once it has started, whatever happens to it.
use mathlib.Core.Path.{subst}
use ad_nope.Prelude.{
  ℕ, ◌+◌, ◌≤◌, ◌<◌, ◌≡◌, refl, ap, sym, ◌∙◌, true, false, String, List, [], ◌∷◌, Option, some,
  Result, ok, err, arith, get_elem?, get_elem?-map, map_option,
}
use ad_nope.Config.{Config}
use ad_nope.Config.Blocklists.{get_blocklists_sorted}
use ad_nope.Dns.{RecordType}
use ad_nope.Engine.State
use ad_nope.Engine.State.{AppState, pause_blocking, resume_blocking}
use ad_nope.Engine.State.Pause.{pause_blocking-safe, resume_blocking-safe}
use ad_nope.Logger.{Channel}
use ad_nope.Stats.{StatsCollector}
use ad_nope.Resolver.Create.{Environment, Resolver, create_resolver}
use ad_nope.Server.Interfaces.{CacheLibrary, NameParser}
use ad_nope.Server.Wire.{policy_resolver-HasU32}
use ad_nope.Server.Expiry.{latest_end}
use ad_nope.Server.Query.{Request, Clock, Handler, new_handler}
use ad_nope.Server.Handler.{new, handle_request, update_blocklist}
use ad_nope.Server.Replies.Handlers.{Replied}
use ad_nope.Server.Replies.{context, handle_request-Replied}
use ad_nope.Logger.Names.{blocklist_name_of}
use ad_nope.Engine.Matcher.Suffix.{Parent}
use ad_nope.Engine.Blocklist.Refresh.{Listed, check-Listed}
use ad_nope.Engine.Blocklist
use ad_nope.App.{init_app_stats}
use ad_nope.Server.Untouched.{handle_request-Kept, refresh_stale-Kept}
use ad_nope.Server.Upstreams.{Network, policy_resolver}
use ad_nope.App.Start.{
  Downloads, matcher_of, with_resolver, AppServer, start, Event, serve, refresh_entry, update,
  pause, resume, step, run, update_round,
}

-- No pause reaches past the last instant.
abbrev pub Fits : ℕ → List Event → Type 0
Fits max_instant [] = Unit
Fits max_instant (pause now duration ∷ es) = (now + duration ≤ max_instant) × Fits max_instant es
Fits max_instant (serve clock request ∷ es) = Fits max_instant es
Fits max_instant (refresh_entry now key ∷ es) = Fits max_instant es
Fits max_instant (update d ∷ es) = Fits max_instant es
Fits max_instant (resume ∷ es) = Fits max_instant es

-- The downloads of the last update, or those given.
abbrev pub latest : Downloads → List Event → Downloads
latest d [] = d
latest d (update e ∷ es) = latest e es
latest d (serve clock request ∷ es) = latest d es
latest d (refresh_entry now key ∷ es) = latest d es
latest d (pause now duration ∷ es) = latest d es
latest d (resume ∷ es) = latest d es

abbrev ok_or {ℓ} : {A : Type ℓ} → Result A → A → A
ok_or (ok a) d = a
ok_or (err e) d = d

-- The name of the list behind a source below 255.
named :
    (now : ℕ) (to_lowercase : String → String) (http : String → Blocklist.Response)
    (config : Config) (u : String) (id : ℕ) (l : Listed to_lowercase http config u id)
    → id < 255
    → blocklist_name_of (init_app_stats now config).1 (some id) ≡ some l.entry.0
unfolding init_app_stats
named now to_lowercase http config u id l small =
    let lists = get_blocklists_sorted config.blocklists in
    let numbered = l.numbered in
    let at : l.index ≡ id = omega arith in
    get_elem?-map (λ (list : String × String). list.0) lists id
    ∙ ap (map_option (λ (list : String × String). list.0)) (ap (get_elem? lists) (sym at) ∙ l.at)

module _ (env : Environment) (net : Network) (moka : CacheLibrary) (names : NameParser)
    (to_lowercase : String → String) where
  module _ (max_instant : ℕ) (h : Handler) where
    -- The lock is not poisoned, and the blocklist is that of the downloads.
    record IsSound (d : Downloads) (s : AppServer env net moka names to_lowercase) : Type 0 where
      safe : s.app_state.poisoned ≡ false
      current : s.blocklist ≡ matcher_of to_lowercase h.config d

    run-IsSound :
        (es : List Event) (d : Downloads) (s : AppServer env net moka names to_lowercase)
        → Fits max_instant es
        → IsSound d s
        → IsSound (latest d es) (run env net moka names to_lowercase max_instant h s es)
    unfolding run step update_round update_blocklist
    run-IsSound [] d s fits i = i
    run-IsSound (serve clock request ∷ es) d s fits i =
        let (state_same, list_same) =
          handle_request-Kept (policy_resolver net) moka names h clock request s in
        run-IsSound es d _ fits (record {
          safe = ap (λ (a : AppState). a.poisoned) state_same ∙ i.safe;
          current = list_same ∙ i.current;
        })
    run-IsSound (refresh_entry now key ∷ es) d s fits i =
        let (state_same, list_same) =
          refresh_stale-Kept (policy_resolver net) moka names h.config now key s in
        run-IsSound es d _ fits (record {
          safe = ap (λ (a : AppState). a.poisoned) state_same ∙ i.safe;
          current = list_same ∙ i.current;
        })
    run-IsSound (update e ∷ es) d s fits i =
        run-IsSound es e _ fits (record { safe = i.safe; current = refl })
    run-IsSound (pause now duration ∷ es) d s (fit, fits) i = run-IsSound es d _ fits (record {
      safe = pause_blocking-safe max_instant now duration s.app_state i.safe fit;
      current = i.current;
    })
    run-IsSound (resume ∷ es) d s fits i =
        run-IsSound es d _ fits
          (record { safe = resume_blocking-safe s.app_state i.safe; current = i.current })

    with_resolver-IsSound :
        (config : Config) (stats : StatsCollector) (logger : List Channel) (d : Downloads)
        (state : net.State) (s : AppServer env net moka names to_lowercase) (x : Result Resolver)
        (created : create_resolver env config ≡ x)
        → with_resolver env net moka names to_lowercase config stats logger d state x created
          ≡ ok (h, s)
        → (h.config ≡ config) × IsSound d s
    unfolding new State.new new_handler
    with_resolver-IsSound config stats logger d state s (err e) created started = cc started
    with_resolver-IsSound config stats logger d state s (ok r) created started =
        let same = ap (λ x. ok_or x (h, s)) started in
        let same_config =
          sym (ap (λ (p : Handler × AppServer env net moka names to_lowercase). p.0.config) same) in
        let safe =
          ap (λ (p : Handler × AppServer env net moka names to_lowercase). p.1.app_state.poisoned)
            same in
        let current =
          ap (λ (p : Handler × AppServer env net moka names to_lowercase). p.1.blocklist) same in
        (
          same_config,
          record {
            safe = sym safe;
            current = sym current ∙ ap (λ c. matcher_of to_lowercase c d) (sym same_config);
          },
        )

  with_resolver-app_state :
      (config : Config) (stats : StatsCollector) (logger : List Channel) (d : Downloads)
      (state : net.State) (h : Handler) (s : AppServer env net moka names to_lowercase)
      (x : Result Resolver) (created : create_resolver env config ≡ x)
      → with_resolver env net moka names to_lowercase config stats logger d state x created
        ≡ ok (h, s)
      → State.new ≡ s.app_state
  unfolding new
  with_resolver-app_state config stats logger d state h s (err e) created started = cc started
  with_resolver-app_state config stats logger d state h s (ok r) created started =
      ap (λ (p : Handler × AppServer env net moka names to_lowercase). p.1.app_state)
        (ap (λ x. ok_or x (h, s)) started)

  module _ (config : Config) (stats : StatsCollector) (logger : List Channel) (d : Downloads)
      (state : net.State) (max_instant : ℕ) where
    with_resolver-ok :
        (x : Result Resolver) (created : create_resolver env config ≡ x) (r : Resolver)
        → x ≡ ok r
        → (p : Handler × AppServer env net moka names to_lowercase) × (with_resolver env net moka
              names to_lowercase config stats logger d state x created
            ≡ ok p)
    with_resolver-ok (err e) created r made = cc made
    with_resolver-ok (ok q) created r made = (_, refl)

    -- The program starts if a resolver is created.
    pub start-ok :
        (r : Resolver)
        → create_resolver env config ≡ ok r
        → (p : Handler × AppServer env net moka names to_lowercase) × (start env net moka names
              to_lowercase config stats logger d state
            ≡ ok p)
    unfolding start
    start-ok r made = with_resolver-ok (create_resolver env config) refl r made

    -- If the program starts, then after any requests, refreshes, updates and commands whose pauses do
    -- not reach past the last instant, a request with a query whose response can be sent is answered
    -- exactly once and logged as the configuration says, and the counters of blocked queries and of hits
    -- move as its entry says, whatever the upstreams do. The platform's last instant has to be no earlier
    -- than the end of the grace of an answer that is cached with the longest time to live.
    pub run-Replied :
        (h : Handler) (s : AppServer env net moka names to_lowercase) (es : List Event)
        (clock : Clock) (request : Request) (name : String) (qtype : RecordType)
        → start env net moka names to_lowercase config stats logger d state ≡ ok (h, s)
        → Fits max_instant es
        → request.query ≡ some (name, qtype)
        → request.deliverable ≡ true
        → latest_end config clock.resolved ≤ moka.max_instant
        → Replied
            (policy_resolver net)
            moka
            names
            h
            clock
            request
            (context (policy_resolver net) moka names clock name qtype)
            (λ r. r)
            (run env net moka names to_lowercase max_instant h s es)
            (handle_request
              (policy_resolver net)
              moka
              names
              h
              clock
              request
              (run env net moka names to_lowercase max_instant h s es))
    unfolding start
    run-Replied h s es clock request name qtype started fits has_query deliverable room =
        let (same, sound) =
          with_resolver-IsSound max_instant h config stats logger d state s _ refl started in
        let after = run-IsSound max_instant h es d s fits sound in
        handle_request-Replied (policy_resolver net) moka names h clock request name qtype
          (run env net moka names to_lowercase max_instant h s es) has_query deliverable after.safe
          (policy_resolver-HasU32 net)
          (subst (λ c. latest_end c clock.resolved ≤ moka.max_instant) (sym same) room)

    -- The program starts without a pause.
    pub start-app_state :
        (h : Handler) (s : AppServer env net moka names to_lowercase)
        → start env net moka names to_lowercase config stats logger d state ≡ ok (h, s)
        → State.new ≡ s.app_state
    unfolding start
    start-app_state h s started =
        with_resolver-app_state config stats logger d state h s _ refl started

    pub run-current :
        (h : Handler) (s : AppServer env net moka names to_lowercase) (es : List Event)
        → start env net moka names to_lowercase config stats logger d state ≡ ok (h, s)
        → Fits max_instant es
        → (run env net moka names to_lowercase max_instant h s es).blocklist
          ≡ matcher_of to_lowercase config (latest d es)
    unfolding start
    run-current h s es started fits =
        let (same, sound) =
          with_resolver-IsSound max_instant h config stats logger d state s _ refl started in
        (run-IsSound max_instant h es d s fits sound).current
        ∙ ap (λ c. matcher_of to_lowercase c (latest d es)) same

    -- If the program starts, then after any requests, refreshes, updates and commands whose pauses do
    -- not reach past the last instant: if the blocklist answers a name with a source below 255, then a
    -- configured list, as the last update or else the start downloaded it, names the name or a parent of
    -- it, and the name of that list stands at that source in the names that the loggers are given.
    pub run-Listed :
        (h : Handler) (s : AppServer env net moka names to_lowercase) (es : List Event) (now : ℕ)
        (name : String) (id : ℕ)
        → start env net moka names to_lowercase config stats logger d state ≡ ok (h, s)
        → Fits max_instant es
        → (run env net moka names to_lowercase max_instant h s es).blocklist name ≡ some id
        → id < 255
        → (u : String) × Parent u name
          × (l : Listed to_lowercase (latest d es).http config u id) × (blocklist_name_of
                (init_app_stats now config).1
                (some id)
              ≡ some l.entry.0)
    run-Listed h s es now name id started fits answered small =
        let current = run-current h s es started fits in
        let found = ap (λ (f : String → Option ℕ). f name) (sym current) ∙ answered in
        let (u, parent, l) =
          check-Listed to_lowercase (latest d es).http config (latest d es).schedule name id
            found in
        (u, parent, l, named now to_lowercase (latest d es).http config u id l small)
