-- ===== src/Logger/Writer/Kept.antt =====
-- What the thread of src/logger/sqlite_sink.rs stores, and keeps through its pruning.
use mathlib.Core.List.{append-nil, append_assoc}
use ad_nope.Prelude.{
  ℕ, ◌+◌, ◌-◌, ◌*◌, ◌^◌, ◌≤◌, ◌<◌, ◌≡◌, refl, ap, ◌∙◌, String, true, false, Bool-cases, Option,
  some, List, [], ◌∷◌, ◌++◌, All, ltb, arith, inl, inr, if◌then◌else◌,
}
use ad_nope.Logger.Names.{blocklist_name_of}
use ad_nope.Engine.State.{from_secs}
use ad_nope.Db.{
  Row, Table, Formats, row_of, insert_log, prune_logs, delete_before, cutoff_at, lt_i64,
}
use ad_nope.Db.Retention.{lt_i64-cutoff_at}
use ad_nope.Logger.Writer.{Round, Writer, insert_entry, write_entry, run_sqlite_writer}

-- A row that no pruning up to the hours after `start` deletes.
abbrev pub IsRecent : ℕ → Row → Type 0
IsRecent start r = (start ≤ r.timestamp) × (r.timestamp < 2 ^ 63)

-- The rounds lie between `start` and the end of the retention from there.
abbrev pub IsWithin : ℕ → ℕ → Round → Type 0
IsWithin start hours r =
    (start ≤ r.inserted_at)
    × (r.inserted_at < 2 ^ 63)
    × (r.pruned_at < 2 ^ 63)
    × (r.pruned_at ≤ start + hours * 3600)

delete_before-recent :
    (start hours now : ℕ) (rows : List Row)
    → hours * 3600 < 2 ^ 63
    → now < 2 ^ 63
    → now ≤ start + hours * 3600
    → All (IsRecent start) rows
    → delete_before (cutoff_at now hours) rows ≡ rows
unfolding delete_before
delete_before-recent start hours now [] hh hn le h = refl
delete_before-recent start hours now (r ∷ rows) hh hn le ((from, to), rest) =
    let e = lt_i64-cutoff_at r.timestamp now hours to hn hh in
    let young : lt_i64 r.timestamp (cutoff_at now hours) ≡ false = e ∙ ground arith in
    rw (young, if◌then◌else◌)
      (ap (λ rs. r ∷ rs) (delete_before-recent start hours now rows hh hn le rest))

All-append :
    (start : ℕ) (xs ys : List Row)
    → All (IsRecent start) xs
    → All (IsRecent start) ys
    → All (IsRecent start) (xs ++ ys)
All-append start [] ys h k = k
All-append start (x ∷ xs) ys h k = (h.0, All-append start xs ys h.1 k)

abbrev pub table_of : List Row → Option Table
table_of rows = some (record { has_ttl_remaining = true; rows = rows })

module _ (formats : Formats) (hours : ℕ) (names : List String) where
  -- The row of a round, unless its insertion failed.
  abbrev pub stored : Round → List Row
  stored r =
      if r.insert_fails
      then []
      else row_of formats r.inserted_at r.entry (blocklist_name_of names r.entry.source_id) ∷ []

  abbrev pub stored_all : List Round → List Row
  stored_all [] = []
  stored_all (r ∷ rounds) = stored r ++ stored_all rounds

  insert_entry-stored :
      (r : Round) (rows : List Row) (indices : List String)
      → insert_entry formats hours names r
          (record { query_logs = table_of rows; indices = indices })
        ≡ record { query_logs = table_of (rows ++ stored r); indices = indices }
  unfolding insert_entry insert_log
  insert_entry-stored r rows indices = elim (Bool-cases r.insert_fails) [
    | inl failed ↦ rw (failed, append-nil) refl
    | inr done ↦ rw done refl
  ]

  stored-IsRecent :
      (start : ℕ) (r : Round) → IsWithin start hours r → All (IsRecent start) (stored r)
  unfolding row_of
  stored-IsRecent start r h = elim (Bool-cases r.insert_fails) [
    | inl failed ↦ rw failed tt
    | inr done ↦ rw done ((h.0, h.1), tt)
  ]

  pruned :
      (start : ℕ) (r : Round) (rows : List Row) (indices : List String)
      → hours * 3600 < 2 ^ 63
      → IsWithin start hours r
      → All (IsRecent start) rows
      → (prune_logs r.prune_fails r.pruned_at hours
          (record { query_logs = table_of rows; indices = indices })).1
        ≡ record { query_logs = table_of rows; indices = indices }
  unfolding prune_logs
  pruned start r rows indices hh (_, _, now, le) h = elim (Bool-cases r.prune_fails) [
    | inl failed ↦ rw failed refl
    | inr done ↦ rw (done, delete_before-recent start hours r.pruned_at rows hh now le h) refl
  ]

  write_entry-stored :
      (start : ℕ) (r : Round) (rows : List Row) (indices : List String) (last : ℕ)
      → hours * 3600 < 2 ^ 63
      → IsWithin start hours r
      → All (IsRecent start) rows
      → (write_entry formats hours names r (record {
        database = record { query_logs = table_of rows; indices = indices };
        last_cleanup = last;
      })).database
        ≡ record { query_logs = table_of (rows ++ stored r); indices = indices }
  unfolding write_entry
  write_entry-stored start r rows indices last hh w h =
      let young = All-append start rows (stored r) h (stored-IsRecent start r w) in
      elim (Bool-cases (ltb (from_secs 3600) (r.checked_at - last))) [
        | inl due ↦ rw due (
            ap (λ db. (prune_logs r.prune_fails r.pruned_at hours db).1)
              (insert_entry-stored r rows indices)
            ∙ pruned start r (rows ++ stored r) indices hh w young)
        | inr early ↦ rw early (insert_entry-stored r rows indices)
      ]

  run_from :
      (start : ℕ) (rounds : List Round) (w : Writer) (rows : List Row) (indices : List String)
      → hours * 3600 < 2 ^ 63
      → All (IsWithin start hours) rounds
      → All (IsRecent start) rows
      → w.database ≡ record { query_logs = table_of rows; indices = indices }
      → (run_sqlite_writer formats hours names rounds w).database
        ≡ record { query_logs = table_of (rows ++ stored_all rounds); indices = indices }
  unfolding run_sqlite_writer
  run_from start [] w rows indices hh within young e = e ∙ rw (append-nil rows) refl
  run_from start (r ∷ rounds) w rows indices hh within young e =
      let next = write_entry formats hours names r w in
      let step : next.database
          ≡ record { query_logs = table_of (rows ++ stored r); indices = indices } =
        ap
          (λ db.
            (write_entry formats hours names r
              (record { database = db; last_cleanup = w.last_cleanup })).database)
          e
        ∙ write_entry-stored start r rows indices w.last_cleanup hh within.0 young in
      run_from start rounds next (rows ++ stored r) indices hh within.1
        (All-append start rows (stored r) young (stored-IsRecent start r within.0)) step
      ∙ rw (append_assoc rows (stored r) (stored_all rounds)) refl

  pub run_sqlite_writer-stored :
      (start : ℕ) (rounds : List Round) (rows : List Row) (indices : List String) (last : ℕ)
      → hours * 3600 < 2 ^ 63
      → All (IsWithin start hours) rounds
      → All (IsRecent start) rows
      → (run_sqlite_writer formats hours names rounds (record {
        database = record { query_logs = table_of rows; indices = indices };
        last_cleanup = last;
      })).database
        ≡ record { query_logs = table_of (rows ++ stored_all rounds); indices = indices }
  run_sqlite_writer-stored start rounds rows indices last hh within young =
      run_from start rounds _ rows indices hh within young refl
