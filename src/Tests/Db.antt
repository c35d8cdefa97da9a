-- ===== src/Tests/Db.antt =====
-- The theorems on the database and on the thread that writes to it, at concrete inputs.
use mathlib.Core.List.{Perm}
use mathlib.Core.List.Perm
use ad_nope.Prelude.{
  ℕ, ◌+◌, ◌*◌, ◌≤◌, ◌≡◌, ◌↔◌, refl, Bool, true, false, none, some, List, [], ◌∷◌, map, returns,
  length, Elem, arith,
}
use ad_nope.Net.{v4}
use ad_nope.Dns.{a}
use ad_nope.Logger.{QueryLogEntry, QueryLogAction, blocked, cached, forwarded}
use ad_nope.Logger.Writer.{Round}
use ad_nope.Stats.{StatsSnapshot}
use ad_nope.Db.{Row, Sqlite, Formats}
use ad_nope.Db.Queries.{get_logs, get_stats}
use ad_nope.Db.Entries.{Stamped, client_after, without_source, get_logs-insert_all}
use ad_nope.Logger.Outcomes.{is_blocked, is_cached}
use ad_nope.Db.Counts.{count_if, action_of, get_stats-counts}
use ad_nope.Config.{default_config}
use ad_nope.Engine.State
use ad_nope.Api.{ApiState, logs}
use ad_nope.Api.Source.{persistent}
use ad_nope.Api.Refreshing.{fresh}
use ad_nope.App.Logs.{IsStored, written, logs-run_sqlite_writer}
use ad_nope.Db.Retention.{pruned_rows, Elem-prune_logs, prune_logs-nil}

-- SQLite visits the rows in the order of the table.
abbrev pub in_order : Sqlite
in_order = record { arrange = λ A xs. xs; arrange-perm = λ A xs. Perm.refl xs }

abbrev pub formats : Formats
formats = record {
  ip_to_string = λ ip. "0.0.0.1";
  ip_from_str = λ text. some (v4 1);
  type_to_string = λ t. "A";
  type_from_str = λ text. some a;
}

abbrev entry : QueryLogAction → QueryLogEntry
entry action = record {
  client_ip = v4 1;
  domain = "ads.com";
  query_type = a;
  action = action;
  source_id = some 0;
  upstream = none;
  latency_ms = 3;
  ttl_remaining = none;
}

abbrev entries : List Stamped
entries =
    (100, entry blocked, some "ads") ∷ (200, entry cached, none) ∷ (150, entry forwarded, none) ∷ []

get_logs-insert_all_example :
    (logs : List QueryLogEntry) × ((get_logs in_order formats 100 (client_after formats entries)).0
      ≡ returns logs)
    × Perm logs (map (λ (s : Stamped). without_source s.1) entries)
get_logs-insert_all_example =
    get_logs-insert_all formats in_order 100 entries (omega arith) (omega arith) (
      record { ip = refl; qtype = refl },
      (record { ip = refl; qtype = refl }, (record { ip = refl; qtype = refl }, tt)),
    )

get_stats-counts_example :
    (shown : StatsSnapshot) × ((get_stats in_order 300 (client_after formats entries)).0
      ≡ returns shown)
    × (shown.total_queries ≡ length entries)
    × (shown.blocked_queries ≡ count_if (λ s. is_blocked (action_of s)) entries)
    × (shown.cache_hits ≡ count_if (λ s. is_cached (action_of s)) entries)
get_stats-counts_example = get_stats-counts formats in_order 300 entries

abbrev row_at : ℕ → Row
row_at time = record {
  timestamp = time;
  client_ip = "0.0.0.1";
  domain = "ads.com";
  query_type = "A";
  action = "Blocked";
  blocklist_name = none;
  upstream = none;
  latency_ms = 3;
  ttl_remaining = none;
}

abbrev two_rows : List Row
two_rows = row_at 100 ∷ row_at 9_000 ∷ []

Elem-prune_logs_example :
    Elem (row_at 9_000) (pruned_rows 10_000 1 two_rows [])
    ↔ (Elem (row_at 9_000) two_rows × (10_000 ≤ 9_000 + 1 * 3600))
Elem-prune_logs_example =
    Elem-prune_logs 10_000 1 two_rows [] (row_at 9_000) (omega arith, (omega arith, tt))
      (omega arith) (omega arith)

-- The greatest number of hours that a TOML file can hold.
abbrev forever : ℕ
forever = 9_223_372_036_854_775_807

prune_logs-nil_example : pruned_rows 10_000 forever two_rows [] ≡ []
prune_logs-nil_example =
    prune_logs-nil 10_000 forever two_rows [] (omega arith) (omega arith)
      (omega arith, (omega arith, tt))

-- The second insertion fails, and the clock says that more than an hour has passed.
abbrev round : ℕ → Bool → Round
round time fails = record {
  entry = entry blocked;
  inserted_at = time;
  insert_fails = fails;
  checked_at = 4_000_000_000_000;
  pruned_at = time;
  prune_fails = false;
  cleaned_at = 4_000_000_000_000;
}

abbrev rounds : List Round
rounds = round 1_000 false ∷ round 1_001 true ∷ round 1_002 false ∷ []

abbrev stored_rounds : List Round
stored_rounds = round 1_000 false ∷ round 1_002 false ∷ []

abbrev api : ApiState
api = record {
  data_source =
      persistent
        (record { database = written formats 24 ("ads" ∷ []) stored_rounds 0; poisoned = false });
  engine = State.new;
  config = default_config;
  refresh_sender = fresh;
}

abbrev is_stored : IsStored formats 1_000 24 (round 1_000 false)
is_stored = record {
  within = (omega arith, omega arith, omega arith, omega arith);
  succeeds = refl;
  readable = record { ip = refl; qtype = refl };
}

abbrev is_stored_later : IsStored formats 1_000 24 (round 1_002 false)
is_stored_later = record {
  within = (omega arith, omega arith, omega arith, omega arith);
  succeeds = refl;
  readable = record { ip = refl; qtype = refl };
}

logs-run_sqlite_writer_example :
    (shown : List QueryLogEntry) × ((logs in_order formats api).0 ≡ returns shown)
    × Perm shown (map (λ (r : Round). without_source r.entry) stored_rounds)
logs-run_sqlite_writer_example =
    logs-run_sqlite_writer formats 24 ("ads" ∷ []) in_order 1_000 stored_rounds 0 api (omega arith)
      (is_stored, (is_stored_later, tt)) (omega arith) refl
