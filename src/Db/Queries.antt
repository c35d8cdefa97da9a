-- ===== src/Db/Queries.antt =====
-- `DbClient::get_stats` and `get_logs` of src/db.rs. A method takes the lock of the connection, and a
-- panic while it is held poisons it.
use ad_nope.Prelude.{
  ℕ, ◌+◌, String, Bool, true, Option, none, some, List, [], ◌∷◌, map, Outcome, returns, panics,
  get_or, take, length, leb, ◌==◌, string_eq, if◌then◌else◌,
}
use mathlib.Core.Option
use ad_nope.Prelude.HashMap
use ad_nope.Prelude.HashMap.{HashMap}
use ad_nope.Prelude.Sort.{sort}
use ad_nope.Logger.{QueryLogEntry}
use ad_nope.Stats.{TopItem, more_first, StatsSnapshot}
use ad_nope.Db.{Row, Table, Database, Sqlite, Formats, signed_key, lt_i64, entry_of}

pub record DbClient : Type 0 where
  pub database : Database
  pub poisoned : Bool

-- `WHERE action = ..`, and all rows
unfoldable pub where_action : Option String → List Row → List Row
where_action none rows = rows
where_action (some name) [] = []
where_action (some name) (row ∷ rows) =
    let rest = where_action (some name) rows in if row.action == name then row ∷ rest else rest

-- `SELECT COUNT(*)`
unfoldable pub count_rows : Option String → List Row → ℕ
unfolding where_action
count_rows action rows = length (where_action action rows)

-- `SELECT key, COUNT( * ) as c .. GROUP BY key`
unfoldable pub group_by : (Row → String) → List Row → HashMap String ℕ
group_by key [] = []
group_by key (row ∷ rows) =
    let groups = group_by key rows in
    HashMap.insert (key row) (get_or (HashMap.get (key row) groups) 0 + 1) groups

-- The closure `get_top`, with `ORDER BY c DESC LIMIT 5`.
unfoldable pub get_top : Sqlite → (Row → String) → Option String → List Row → List TopItem
unfolding where_action group_by
get_top sqlite key action rows = take 5 (
    sort more_first (
      sqlite.arrange TopItem
        (map (λ e. record { name = e.0; count = e.1 }) (group_by key (where_action action rows)))))

-- `SELECT MIN(timestamp)` and `MAX`: nothing without rows.
unfoldable pub min_timestamp : List Row → Option ℕ
min_timestamp [] = none
min_timestamp (row ∷ rows) = some (
    get_or
      (Option.map (λ t. if lt_i64 row.timestamp t then row.timestamp else t) (min_timestamp rows))
      row.timestamp)

unfoldable pub max_timestamp : List Row → Option ℕ
max_timestamp [] = none
max_timestamp (row ∷ rows) = some (
    get_or
      (Option.map (λ t. if lt_i64 t row.timestamp then row.timestamp else t) (max_timestamp rows))
      row.timestamp)

-- The snapshot of the rows; `now` is the time in seconds.
unfoldable pub snapshot_of : Sqlite → ℕ → List Row → StatsSnapshot
unfolding count_rows get_top min_timestamp max_timestamp
snapshot_of sqlite now rows = record {
  total_queries = count_rows none rows;
  blocked_queries = count_rows (some "Blocked") rows;
  cache_hits = count_rows (some "Cached") rows;
  top_clients = get_top sqlite (λ row. row.client_ip) none rows;
  top_blocked_clients = get_top sqlite (λ row. row.client_ip) (some "Blocked") rows;
  top_domains = get_top sqlite (λ row. row.domain) none rows;
  top_blocked_domains = get_top sqlite (λ row. row.domain) (some "Blocked") rows;
  started_at = get_or (min_timestamp rows) 0;
  updated_at = get_or (max_timestamp rows) now;
}

-- `ORDER BY timestamp DESC`
abbrev pub newer_first : Row → Row → Bool
newer_first x y = leb (signed_key y.timestamp) (signed_key x.timestamp)

-- `LIMIT ?`, of `limit as i64`: a negative limit is none.
unfoldable pub limit_rows : ℕ → List Row → List Row
limit_rows limit rows = if lt_i64 limit 0 then rows else take limit rows

-- The rows that `get_logs` selects.
unfoldable pub latest_rows : Sqlite → ℕ → List Row → List Row
unfolding limit_rows
latest_rows sqlite limit rows = limit_rows limit (sort newer_first (sqlite.arrange Row rows))

abbrev pub get_stats_in : Sqlite → ℕ → Option Table → Outcome StatsSnapshot
get_stats_in sqlite now none = panics
get_stats_in sqlite now (some t) = returns (snapshot_of sqlite now t.rows)

abbrev pub get_logs_in : Sqlite → Formats → ℕ → Option Table → Outcome (List QueryLogEntry)
get_logs_in sqlite formats limit none = panics
get_logs_in sqlite formats limit (some t) =
    if t.has_ttl_remaining
    then returns (map (entry_of formats) (latest_rows sqlite limit t.rows))
    else panics

-- A call under the lock.
abbrev pub locked {ℓ} : {A : Type ℓ} → (Database → Outcome A) → DbClient → Outcome A × DbClient
locked {A} f c =
    if c.poisoned then (panics, c) else elim (f c.database) as (λ _. Outcome A × DbClient) [
      | panics ↦ (panics, record c { poisoned = true })
      | returns x ↦ (returns x, c)
    ]

unfoldable pub get_stats : Sqlite → ℕ → DbClient → Outcome StatsSnapshot × DbClient
unfolding snapshot_of
get_stats sqlite now = locked (λ db. get_stats_in sqlite now db.query_logs)

unfoldable pub get_logs : Sqlite → Formats → ℕ → DbClient → Outcome (List QueryLogEntry) × DbClient
unfolding latest_rows
get_logs sqlite formats limit = locked (λ db. get_logs_in sqlite formats limit db.query_logs)
