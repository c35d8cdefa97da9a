-- ===== src/App/Program/Served.antt =====
-- The DNS server within the running program of src/main.rs.
use ad_nope.Prelude.{◌≤◌, Bool, ℕ, ◌<◌, ◌≡◌, sym, ap, ◌∙◌, true, String, some, List, ok}
use mathlib.Core.Path.{subst}
use ad_nope.Prelude.Words.{u64_mod}
use ad_nope.Config.{Config}
use ad_nope.Dns.{RecordType}
use ad_nope.Engine.State.{from_secs}
use ad_nope.Engine.Matcher.Suffix.{Parent}
use ad_nope.Engine.Blocklist.Refresh.{Listed}
use ad_nope.Logger.{Channel}
use ad_nope.Logger.Names.{blocklist_name_of}
use ad_nope.Stats.{StatsCollector}
use ad_nope.Server.Expiry.{latest_end}
use ad_nope.Server.Query.{Request, Clock, Handler}
use ad_nope.Server.Handler.{handle_request}
use ad_nope.Server.Replies.{context}
use ad_nope.Server.Replies.Handlers.{Replied}
use ad_nope.Server.Upstreams.{policy_resolver}
use ad_nope.App.{init_app_stats}
use ad_nope.App.Start.{AppServer, Downloads, start}
use ad_nope.App.Running
use ad_nope.App.Running.{latest, run-Replied, run-Listed}
use ad_nope.App.Program.{World, Program, Happening, Runs, launched}
use ad_nope.App.Program.Refines.{server_events, runs-server}

module _ (w : World) (config : Config) (stats : StatsCollector) (logger : List Channel)
    (d : Downloads) (state : w.net.State) (h : Handler)
    (s : AppServer w.env w.net w.moka w.names w.to_lowercase)
    (started : start w.env w.net w.moka w.names w.to_lowercase config stats logger d state
      ≡ ok (h, s))
    (timer : w.tokio.Timer) (now : ℕ) (bound : Bool) (q : Program w) (es : List Happening)
    (runs : Runs w h (launched w s timer now bound) es q)
    (platform : w.moka.max_instant < from_secs u64_mod)
    (fits : Running.Fits w.moka.max_instant (server_events w.from_json es)) where
  -- If the program starts on a platform whose instants are below 2^64 seconds, then after any
  -- queries, requests to the API and rounds of the updater, in any order that the timer and the
  -- channel allow, where no pause reaches past the last instant: a query whose response can be sent,
  -- at a time from which 2^32 - 1 seconds, or the configured minimum time to live if it is longer,
  -- and then the configured grace end no later than the last instant, is answered exactly once and logged as the configuration says, and the counters of
  -- blocked queries and of hits move as its entry says, whatever the upstreams do.
  pub runs-Replied :
      (clock : Clock) (request : Request) (name : String) (qtype : RecordType)
      → request.query ≡ some (name, qtype)
      → request.deliverable ≡ true
      → latest_end config clock.resolved ≤ w.moka.max_instant
      → Replied
          (policy_resolver w.net)
          w.moka
          w.names
          h
          clock
          request
          (context (policy_resolver w.net) w.moka w.names clock name qtype)
          (λ r. r)
          q.server
          (handle_request (policy_resolver w.net) w.moka w.names h clock request q.server)
  runs-Replied clock request name qtype has_query deliverable room =
      subst
        (λ x.
          Replied (policy_resolver w.net) w.moka w.names h clock request
            (context (policy_resolver w.net) w.moka w.names clock name qtype) (λ r. r) x
            (handle_request (policy_resolver w.net) w.moka w.names h clock request x))
        (sym (runs-server w h (launched w s timer now bound) q es runs platform fits))
        (run-Replied w.env w.net w.moka w.names w.to_lowercase config stats logger d state
          w.moka.max_instant h s (server_events w.from_json es) clock request name qtype started
          fits has_query deliverable room)

  -- If the program starts on a platform whose instants are below 2^64 seconds, then after any
  -- queries, requests to the API and rounds of the updater, in any order that the timer and the
  -- channel allow, where no pause reaches past the last instant: if the blocklist answers a name
  -- with a source below 255, then a configured list, as the last finished update or else the start
  -- downloaded it, names the name or a parent of it, and the name of that list stands at that
  -- source in the names that the loggers are given.
  pub runs-Listed :
      (clock : ℕ) (name : String) (id : ℕ)
      → q.server.blocklist name ≡ some id
      → id < 255
      → (u : String) × Parent u name
        × (l : Listed w.to_lowercase (latest d (server_events w.from_json es)).http config u id)
        × (blocklist_name_of (init_app_stats clock config).1 (some id) ≡ some l.entry.0)
  runs-Listed clock name id answered small =
      run-Listed w.env w.net w.moka w.names w.to_lowercase config stats logger d state
        w.moka.max_instant h s (server_events w.from_json es) clock name id started fits
        (ap (λ (x : AppServer w.env w.net w.moka w.names w.to_lowercase). x.blocklist name)
            (sym (runs-server w h (launched w s timer now bound) q es runs platform fits))
          ∙ answered)
        small
