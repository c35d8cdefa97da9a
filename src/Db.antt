-- ===== src/Db.antt =====
-- src/db.rs: the table `query_logs` of the SQLite database, and the statements of `DbClient` and
-- `LogWriter` on it.
-- An `i64` is its bit pattern, a number below 2^64, so that the casts from and to `u64` keep it; it
-- is compared by its sign. SQLite hands over the rows in an order of its own wherever a statement
-- leaves it open; a statement may fail, and then changes nothing.
pub mod Schema
pub mod Queries
pub mod Retention
pub mod Entries
pub mod Counts
use mathlib.Core.List.{Perm}
use ad_nope.Prelude.{
  ℕ, ◌+◌, ◌-◌, ◌*◌, ◌%◌, ◌^◌, ◌≡◌, String, Bool, true, false, ◌&&◌, not, Option, none, some, List,
  [], ◌∷◌, ◌++◌, Result, ok, err, Outcome, returns, panics, get_or, take, ltb, leb, ◌==◌, string_eq,
  if◌then◌else◌,
}
use ad_nope.Prelude.Sort.{sort}
use ad_nope.Prelude.Words.{u64_mod}
use ad_nope.Net.{IpAddr, v4}
use ad_nope.Dns.{RecordType, a}
use ad_nope.Logger.{QueryLogAction, allowed, blocked, cached, forwarded, local, QueryLogEntry}

pub record Row : Type 0 where
  pub timestamp : ℕ
  pub client_ip : String
  pub domain : String
  pub query_type : String
  pub action : String
  pub blocklist_name : Option String
  pub upstream : Option String
  pub latency_ms : ℕ
  pub ttl_remaining : Option ℕ

-- The table: whether it has the column `ttl_remaining`, which older versions did not create, and its
-- rows, the oldest first.
pub record Table : Type 0 where
  pub has_ttl_remaining : Bool
  pub rows : List Row

pub record Database : Type 0 where
  pub query_logs : Option Table
  pub indices : List String

-- The order in which SQLite visits rows or groups.
pub record Sqlite : Type 1 where
  pub arrange : (A : Type 0) → List A → List A
  pub arrange-perm : (A : Type 0) (xs : List A) → Perm (arrange A xs) xs

-- Addresses and record types as texts: `to_string` and `from_str`.
pub record Formats : Type 0 where
  pub ip_to_string : IpAddr → String
  pub ip_from_str : String → Option IpAddr
  pub type_to_string : RecordType → String
  pub type_from_str : String → Option RecordType

-- The order of `i64`.
abbrev pub signed_key : ℕ → ℕ
signed_key x = (x + 2 ^ 63) % u64_mod

abbrev pub lt_i64 : ℕ → ℕ → Bool
lt_i64 x y = ltb (signed_key x) (signed_key y)

-- `timestamp - (retention_hours * 3600) as i64`, in a build without overflow checks
abbrev pub sub_i64 : ℕ → ℕ → ℕ
sub_i64 x y = (x + u64_mod - y) % u64_mod

-- `format!("{:?}", entry.action)`
unfoldable pub action_to_string : QueryLogAction → String
action_to_string allowed = "Allowed"
action_to_string blocked = "Blocked"
action_to_string cached = "Cached"
action_to_string forwarded = "Forwarded"
action_to_string local = "Local"

unfoldable pub parse_action : String → QueryLogAction
parse_action s =
    if s == "Allowed"
    then allowed
    else if s == "Blocked"
    then blocked
    else if s == "Cached"
    then cached
    else if s == "Forwarded"
    then forwarded
    else if s == "Local"
    then local
    else allowed

module _ (formats : Formats) where
  -- The values of `INSERT INTO query_logs`; `now` is the time in seconds.
  unfoldable pub row_of : ℕ → QueryLogEntry → Option String → Row
  unfolding action_to_string
  row_of now entry blocklist = record {
    timestamp = now;
    client_ip = formats.ip_to_string entry.client_ip;
    domain = entry.domain;
    query_type = formats.type_to_string entry.query_type;
    action = action_to_string entry.action;
    blocklist_name = blocklist;
    upstream = entry.upstream;
    latency_ms = entry.latency_ms;
    ttl_remaining = entry.ttl_remaining;
  }

  -- The closure of `get_logs`: the entry that a row shows.
  unfoldable pub entry_of : Row → QueryLogEntry
  unfolding parse_action
  entry_of row = record {
    client_ip = get_or (formats.ip_from_str row.client_ip) (v4 0);
    domain = row.domain;
    query_type = get_or (formats.type_from_str row.query_type) a;
    action = parse_action row.action;
    source_id = none;
    upstream = row.upstream;
    latency_ms = row.latency_ms;
    ttl_remaining = row.ttl_remaining;
  }

  -- The statement names the column `ttl_remaining`, and cannot be prepared without it.
  abbrev pub insert_row : Row → Option Table → Result (Unit {0}) × Option Table
  insert_row row none = (err "no such table", none)
  insert_row row (some t) =
      if t.has_ttl_remaining
      then (ok tt, some (record t { rows = t.rows ++ (row ∷ []) }))
      else (err "no such column", some t)

  unfoldable pub insert_log :
      Bool → ℕ → QueryLogEntry → Option String → Database → Result (Unit {0}) × Database
  unfolding row_of
  insert_log fails now entry blocklist db = if fails then (err "SQLite failed", db) else (
    (insert_row (row_of now entry blocklist) db.query_logs).0,
    record db { query_logs = (insert_row (row_of now entry blocklist) db.query_logs).1 },
  )

-- `DELETE FROM query_logs WHERE timestamp < ?1`
unfoldable pub delete_before : ℕ → List Row → List Row
delete_before cutoff [] = []
delete_before cutoff (row ∷ rows) =
    let rest = delete_before cutoff rows in if lt_i64 row.timestamp cutoff then rest else row ∷ rest

abbrev pub delete_rows : ℕ → Option Table → Result (Unit {0}) × Option Table
delete_rows cutoff none = (err "no such table", none)
delete_rows cutoff (some t) = (ok tt, some (record t { rows = delete_before cutoff t.rows }))

unfoldable pub cutoff_at : ℕ → ℕ → ℕ
cutoff_at now retention_hours = sub_i64 now (retention_hours * 3600 % u64_mod)

unfoldable pub prune_logs : Bool → ℕ → ℕ → Database → Result (Unit {0}) × Database
unfolding delete_before cutoff_at
prune_logs fails now retention_hours db = if fails then (err "SQLite failed", db) else (
  (delete_rows (cutoff_at now retention_hours) db.query_logs).0,
  record db { query_logs = (delete_rows (cutoff_at now retention_hours) db.query_logs).1 },
)
