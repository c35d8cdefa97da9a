-- ===== src/Tests/App.antt =====
-- The theorems on the program as a whole, at concrete inputs.
use ad_nope.Tests.Fixtures.{unbounded, names, upstream, environment}
use ad_nope.Prelude.{
  ◌≡◌, refl, none, some, true, false, not, ◌&&◌, String, [], ◌∷◌, returns, Result, ok, err, arith,
  string_eq, nat_eq, pair_eq,
}
use ad_nope.Net.{v4}
use ad_nope.Dns.{a, type_eq}
use ad_nope.Config.{Config, default_config}
use ad_nope.Engine.Matcher.{check, check_part, strip_label, new}
use ad_nope.Engine.Matcher.Suffix.{Shorter-wf}
use ad_nope.Prelude.Sort.{sort, place}
use ad_nope.Prelude.Text.{trim, trim_start, is_empty, starts_with, str_le}
use ad_nope.Prelude.Schedule.{completed, pick}
use ad_nope.Config.Blocklists.{get_blocklists_sorted}
use ad_nope.Engine.Blocklist.{
  body, line, refresh, fetch_all, fetch_and_parse, parse_lines, parse_line, insert_lists,
  insert_entries, source_id_of,
}
use ad_nope.Stats
use ad_nope.Stats.{StatsCollector}
use ad_nope.Resolver.{Answer}
use ad_nope.Resolver.Create.{
  Resolver, single, create_resolver, choose, create_configured_upstreams, create_single_upstream,
  bootstrap_host, upstream_at, protocol_of, default_port_of, is_encrypted,
}
use ad_nope.Server.Query.{Clock, Request, Handler}
use ad_nope.Server.Accounts.{Quiet}
use ad_nope.Server.Upstreams.{Network, Working, policy_resolver, policy_resolver-returns}
use ad_nope.App.{Connecting, choose_source, init_sqlite_db, has_writer, connect}
use ad_nope.App.Sinks.{feeds, is_memory, is_sqlite, reads_memory, choose_source-feeds}
use ad_nope.App.Start.{AppServer, Downloads, matcher_of, start}
use ad_nope.App.Running.{start-ok}
use ad_nope.Prelude.HashMap
use ad_nope.Prelude.HashMap.{get-insert}

-- The upstreams answer nothing.
abbrev pub silent : Network
silent = record {
  State = Unit {0};
  ask = λ state name qtype. (λ i. record { res = err "timed out"; elapsed_ms = 20 }, [], tt);
  ask-IsU32 = λ s name qtype i. tt;
}

abbrev pub config : Config
config = record default_config {
  upstream_servers = "udp://1" ∷ [];
  blocklists = ("ads", "http://ads") ∷ [];
}

abbrev pub downloads : String → Downloads
downloads text = record { http = λ url. body (line text ∷ []); schedule = [] }

abbrev pub unchanged : String → String
unchanged s = s

abbrev pub stats : StatsCollector
stats = Stats.new 0 60 [] []

abbrev pub created : Resolver
created = single (upstream "udp://1")

pub config-created : create_resolver environment config ≡ ok created
unfolding create_resolver choose create_configured_upstreams create_single_upstream bootstrap_host
    upstream_at protocol_of default_port_of is_encrypted
config-created = refl

abbrev pub Started : Type 0
Started = Handler × AppServer environment silent unbounded names unchanged

-- The program after its start.
abbrev pub started :
    (p : Started) × (start environment silent unbounded names unchanged config stats []
        (downloads "a.com")
        tt
      ≡ ok p)
started =
    start-ok environment silent unbounded names unchanged config stats [] (downloads "a.com") tt 0
      created config-created

abbrev pub clock : Clock
clock = record { start = 1; pause_check = 2; cache_check = 3; resolved = 4; logged = 5 }

abbrev pub request : Request
request = record { src = v4 1; query = some ("Ads.com.", a); deliverable = true }

pub ads_listed : matcher_of unchanged config (downloads "ads.com") "ads.com" ≡ some 0
unfolding check check_part strip_label Shorter-wf refresh fetch_all fetch_and_parse parse_lines
    parse_line trim trim_start is_empty starts_with get_blocklists_sorted sort place str_le
    insert_lists insert_entries HashMap.get HashMap.insert completed pick new source_id_of
ads_listed = refl

-- Both connections are opened, and every statement succeeds.
abbrev opened : Connecting
opened = record {
  opened = some (record { query_logs = none; indices = [] });
  journal_set = true;
  timeout_set = true;
}

abbrev with_sqlite : Config
with_sqlite = record default_config {
  logging = record default_config.logging { query_log_sinks = "console" ∷ "sqlite" ∷ [] };
}

choose_source-feeds_example :
    (feeds is_memory
        (choose_source with_sqlite stats opened (init_sqlite_db (λ s. false) opened with_sqlite)).1
      ≡ reads_memory
          (choose_source with_sqlite stats opened
            (init_sqlite_db (λ s. false) opened with_sqlite)).0)
    × (feeds is_sqlite
          (choose_source with_sqlite stats opened
            (init_sqlite_db (λ s. false) opened with_sqlite)).1
        ≡ not (
            reads_memory
              (choose_source with_sqlite stats opened
                (init_sqlite_db (λ s. false) opened with_sqlite)).0)
          && has_writer (connect opened))
choose_source-feeds_example = choose_source-feeds (λ s. false) opened opened with_sqlite stats

abbrev working_example : Working
working_example = (created, omega arith)

policy_resolver-returns_example :
    (r : Result Answer) × (((policy_resolver silent).resolve
        (working_example, tt)
        stats
        "a.com"
        a).0
      ≡ returns r)
    × Quiet stats ((policy_resolver silent).resolve (working_example, tt) stats "a.com" a).2
policy_resolver-returns_example =
    policy_resolver-returns silent (working_example, tt) stats "a.com" a
