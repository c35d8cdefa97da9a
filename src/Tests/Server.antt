-- ===== src/Tests/Server.antt =====
-- The theorems on the handler of queries, at concrete inputs.
use ad_nope.Tests.Fixtures.{unbounded, names}
use ad_nope.Prelude.{
  arith, ℕ, ◌+◌, ◌≡◌, ◌≤◌, ◌⊎◌, refl, List, [], ◌∷◌, none, some, true, false, returns, panics, ok,
  max, All, Elem, pair_eq, string_eq, nat_eq, ◌==◌, if◌then◌else◌,
}
use ad_nope.Prelude.HashMap
use ad_nope.Prelude.HashMap.{HashMap, get-insert}
use ad_nope.Net.{v4}
use ad_nope.Dns.{a, Record, address4, address6, type_eq}
use ad_nope.Config.{Config, default_config}
use ad_nope.Engine.State
use ad_nope.Engine.State.{active_at, from_secs}
use ad_nope.Stats
use ad_nope.Stats.{StatsCollector}
use ad_nope.Stats.Events
use ad_nope.Stats.Events.{
  apply_all, client_query, domain_query, blocked_by, client_block, domain_block,
}
use ad_nope.Logger
use ad_nope.Logger.{channel_for, console}
use ad_nope.Server.Interfaces.{DnsResolver, Entry}
use ad_nope.Server.Cache.{
  Server, effective_ttl, resolve_and_cache, check_cache, served_records, cache_answer,
}
use ad_nope.Server.Lifetime.{IsWindowed, effective_ttl-bounds, check_cache-resolve_and_cache}
use ad_nope.Server.Query.{
  Clock, Request, new_handler, QueryContext, local_records_from, without_dot,
}
use ad_nope.Server.Overflow.{resolve_and_serve-panics}
use ad_nope.Server.Handler.{resolve_and_serve, handle_request}
use native.Mathlib.Decide.{dec_le}
use ad_nope.Prelude.Text.{ends_with, pop}
use ad_nope.Prelude.Case.{make_ascii_lowercase, to_ascii_lowercase}
use ad_nope.Server.Paused.{handle_request-paused}
use ad_nope.Server.Blocking.{blocked_answer, blocked_entry, handle_request-listed}
use ad_nope.Server.Replies.Handlers.{Replied}
use ad_nope.Server.Replies.{context, handle_request-Replied}

abbrev address : ℕ → ℕ → Record
address ttl n = record { name = "a.com."; ttl = ttl; rdata = address4 n }

-- A resolver that has the same two addresses for every name.
abbrev pub constant : DnsResolver
constant = record {
  State = Unit {0};
  resolve = λ state stats name qtype.
      (returns (ok (address 400 1 ∷ address 500 2 ∷ [], "udp://1")), state, stats);
}

-- A resolver that adds an AAAA record.
abbrev pub mixed : DnsResolver
mixed = record {
  State = Unit {0};
  resolve = λ state stats name qtype. (
    returns (ok (address 400 1 ∷ record (address 400 1) { rdata = address6 1 } ∷ [], "udp://1")),
    state,
    stats,
  );
}

abbrev pub server : Server constant unbounded
server = record {
  stats = Stats.new 0 60 [] [];
  logger = channel_for console ∷ [];
  app_state = State.new;
  blocklist = λ name. if name == "ads.com" then some 3 else none;
  resolver = tt;
  cache = [];
  spawned = [];
  sent = [];
}

abbrev records : List Record
records = address 400 1 ∷ address 500 2 ∷ []

effective_ttl-bounds_example :
    (300 ≤ effective_ttl default_config records)
    × All (λ r. effective_ttl default_config records ≤ max r.ttl 300) records
    × ((effective_ttl default_config records ≡ 300)
        ⊎ ((r : Record) × Elem r records × (effective_ttl default_config records ≡ r.ttl)))
effective_ttl-bounds_example = effective_ttl-bounds default_config records

abbrev entry : Entry
entry = record { records = records; valid_until = 5_000_000_000; stale_until = 9_000_000_000 }

abbrev resolved : Server constant unbounded
resolved = (resolve_and_cache constant unbounded default_config 7 "a.com" a server).1

check_cache-resolve_and_cache_example :
    (((unbounded.get resolved.cache ("a.com", a)).0 ≡ none)
      × ((check_cache constant unbounded 9 "a.com" a resolved).0 ≡ none))
    ⊎ IsWindowed records
        (7 + from_secs (effective_ttl default_config records))
        (7 + from_secs (effective_ttl default_config records) + from_secs 10)
        9
        (check_cache constant unbounded 9 "a.com" a resolved).0
unfolding resolve_and_cache cache_answer served_records
check_cache-resolve_and_cache_example =
    check_cache-resolve_and_cache constant unbounded default_config 7 9 "a.com" a server resolved
      records "udp://1" refl

abbrev pub clock : Clock
clock = record { start = 1; pause_check = 2; cache_check = 3; resolved = 4; logged = 5 }

abbrev pub request : Request
request = record { src = v4 1; query = some ("Ads.com.", a); deliverable = true }

handle_request-Replied_example :
    Replied constant unbounded names
      (new_handler names default_config)
      clock
      request
      (context constant unbounded names clock "Ads.com." a)
      (λ r. r)
      server
      (handle_request constant unbounded names
        (new_handler names default_config)
        clock
        request
        server)
unfolding State.new new_handler
handle_request-Replied_example =
    handle_request-Replied constant unbounded names (new_handler names default_config) clock request
      "Ads.com." a server refl refl refl
      (λ state stats n q.
        (ok (records, "udp://1"), refl, (refl, refl), (omega arith, (omega arith, tt))))
      (omega arith)

abbrev pub ipv4_only : Config
ipv4_only = record default_config { disable_ipv6 = true }

abbrev query : QueryContext
query = record { name = "ads.com"; qtype = a; start = 1 }

handle_request-listed_example :
    handle_request constant unbounded names (new_handler names default_config) clock request server
    ≡ (
      returns (blocked_answer names "ads.com" a),
      record server {
        sent = blocked_answer names "ads.com" a ∷ [];
        logger = Logger.log (blocked_entry clock (v4 1) "ads.com" a 3) server.logger;
        stats = apply_all server.stats (
            Events.query
            ∷ client_query (v4 1)
            ∷ domain_query "ads.com"
            ∷ blocked_by 3
            ∷ client_block (v4 1)
            ∷ domain_block "ads.com"
            ∷ []);
      },
    )
unfolding State.new active_at local_records_from new_handler without_dot make_ascii_lowercase
    to_ascii_lowercase ends_with pop HashMap.get dec_le
handle_request-listed_example =
    handle_request-listed constant unbounded names (new_handler names default_config) clock request
      "Ads.com." a server 3 refl refl refl refl refl tt refl

abbrev paused : Server constant unbounded
paused = record server { app_state = record { blocking_paused_until = some 10; poisoned = false } }

handle_request-paused_example :
    handle_request constant unbounded names
      (new_handler names default_config)
      clock
      request
      (record paused { blocklist = λ name. none })
    ≡ (
      (handle_request constant unbounded names
          (new_handler names default_config)
          clock
          request
          paused).0,
      record (handle_request constant unbounded names
          (new_handler names default_config)
          clock
          request
          paused).1 { blocklist = λ name. none },
    )
unfolding active_at
handle_request-paused_example =
    handle_request-paused constant unbounded names (λ name. none) (new_handler names default_config)
      clock request paused refl refl

abbrev endless : Config
endless = record default_config {
  cache = record default_config.cache { grace_period_sec = 9_223_372_036_854_775_807 };
}

resolve_and_serve-panics_example :
    resolve_and_serve constant unbounded names
      (new_handler names endless)
      clock
      request
      query
      server
    ≡ (panics, server)
unfolding new_handler
resolve_and_serve-panics_example =
    resolve_and_serve-panics constant unbounded names (new_handler names endless) clock request
      query server records "udp://1" refl (omega arith)
