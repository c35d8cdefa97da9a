-- ===== src/Logger/Writer.antt =====
-- src/logger/sqlite_sink.rs: `SqliteLogSink`, which sends entries to a thread, and the loop of that
-- thread, which stores them and prunes the table about once an hour.
pub mod Kept
use mathlib.Core.List.{append-nil, append_assoc}
use ad_nope.Prelude.{
  ℕ, ◌+◌, ◌-◌, ◌*◌, ◌^◌, ◌≤◌, ◌<◌, ◌≡◌, refl, ap, sym, ◌∙◌, String, Bool, true, false, Option, none,
  some, List, [], ◌∷◌, ◌++◌, All, ltb, arith, if◌then◌else◌,
}
use ad_nope.Logger.{QueryLogEntry}
use ad_nope.Logger.Names.{blocklist_name_of}
use ad_nope.Engine.State.{from_secs}
use ad_nope.Db.{
  Row, Table, Database, Formats, row_of, insert_log, prune_logs, delete_before, cutoff_at, lt_i64,
}

-- The unbounded channel to the thread; it is closed when the thread has ended.
pub record SqliteLogSink : Type 0 where
  pub queue : List QueryLogEntry
  pub closed : Bool

unfoldable pub log : SqliteLogSink → QueryLogEntry → SqliteLogSink
log s entry = if s.closed then s else record s { queue = s.queue ++ (entry ∷ []) }

-- A round of the loop: the entry that `recv` yields, the system clock where it is read, in seconds or
-- in nanoseconds, and whether the two statements fail.
pub record Round : Type 0 where
  pub entry : QueryLogEntry
  pub inserted_at : ℕ
  pub insert_fails : Bool
  pub checked_at : ℕ
  pub pruned_at : ℕ
  pub prune_fails : Bool
  pub cleaned_at : ℕ

pub record Writer : Type 0 where
  pub database : Database
  pub last_cleanup : ℕ

module _ (formats : Formats) (retention_hours : ℕ) (blocklist_names : List String) where
  unfoldable pub insert_entry : Round → Database → Database
  insert_entry r db =
      (insert_log formats r.insert_fails r.inserted_at r.entry
        (blocklist_name_of blocklist_names r.entry.source_id) db).1

  -- The body of the loop. A clock that was set back has elapsed nothing.
  unfoldable pub write_entry : Round → Writer → Writer
  unfolding insert_entry
  write_entry r w =
      let db = insert_entry r w.database in
      if ltb (from_secs 3600) (r.checked_at - w.last_cleanup)
      then record {
        database = (prune_logs r.prune_fails r.pruned_at retention_hours db).1;
        last_cleanup = r.cleaned_at;
      }
      else record w { database = db }

  -- The loop, over the entries until the channel is closed.
  unfoldable pub run_sqlite_writer : List Round → Writer → Writer
  run_sqlite_writer [] w = w
  run_sqlite_writer (r ∷ rounds) w = run_sqlite_writer rounds (write_entry r w)
