-- ===== src/App/Logs.antt =====
-- From the thread of src/logger/sqlite_sink.rs over the database to `get_logs` of src/api/mod.rs.
use mathlib.Core.List.{Perm}
use mathlib.Core.Path.{subst}
use ad_nope.Prelude.{
  ℕ, ◌*◌, ◌^◌, ◌≤◌, ◌<◌, ◌≡◌, refl, ap, sym, ◌∙◌, String, false, List, [], ◌∷◌, map, returns,
  length, length-map, All, All-map, arith, if◌then◌else◌,
}
use ad_nope.Logger.{QueryLogEntry}
use ad_nope.Logger.Names.{blocklist_name_of}
use ad_nope.Logger.Writer.{Round, run_sqlite_writer}
use ad_nope.Logger.Writer.Kept.{IsWithin, table_of, stored_all, run_sqlite_writer-stored}
use ad_nope.Db.{row_of, Database, Sqlite, Formats}
use ad_nope.Db.Queries
use ad_nope.Db.Queries.{DbClient}
use ad_nope.Db.Entries.{
  Stamped, IsReadable, AreReadable, rows_for, insert_all-rows, client_after, without_source,
  get_logs-insert_all,
}
use ad_nope.Api.{ApiState, logs, logs_limit}
use ad_nope.Api.Source
use ad_nope.Api.Source.{persistent}

-- A round that stores its entry, which can be read back.
pub record IsStored (formats : Formats) (start hours : ℕ) (r : Round) : Type 0 where
  pub within : IsWithin start hours r
  pub succeeds : r.insert_fails ≡ false
  pub readable : IsReadable formats r.entry

module _ (formats : Formats) (hours : ℕ) (names : List String) where
  abbrev stamped : Round → Stamped
  stamped r = (r.inserted_at, r.entry, blocklist_name_of names r.entry.source_id)

  stored_all-rows_for :
      (start : ℕ) (rounds : List Round)
      → All (IsStored formats start hours) rounds
      → stored_all formats hours names rounds ≡ rows_for formats (map stamped rounds)
  stored_all-rows_for start [] h = refl
  stored_all-rows_for start (r ∷ rounds) h =
      rw (h.0.succeeds, if◌then◌else◌)
        (ap
          (λ rs.
            row_of formats r.inserted_at r.entry (blocklist_name_of names r.entry.source_id) ∷ rs)
          (stored_all-rows_for start rounds h.1))

  AreReadable-stamped :
      (start : ℕ) (rounds : List Round)
      → All (IsStored formats start hours) rounds
      → AreReadable formats (map stamped rounds)
  AreReadable-stamped start [] h = tt
  AreReadable-stamped start (r ∷ rounds) h = (h.0.readable, AreReadable-stamped start rounds h.1)

  entries_of-stamped :
      (rounds : List Round)
      → map (λ (s : Stamped). without_source s.1) (map stamped rounds)
        ≡ map (λ (r : Round). without_source r.entry) rounds
  entries_of-stamped [] = refl
  entries_of-stamped (r ∷ rounds) =
      ap (λ es. without_source r.entry ∷ es) (entries_of-stamped rounds)

  -- The database after the rounds, on an empty table.
  abbrev pub written : List Round → ℕ → Database
  written rounds last =
      (run_sqlite_writer formats hours names rounds (record {
        database = record { query_logs = table_of []; indices = [] };
        last_cleanup = last;
      })).database

  written-client_after :
      (start : ℕ) (rounds : List Round) (last : ℕ)
      → hours * 3600 < 2 ^ 63
      → All (IsStored formats start hours) rounds
      → written rounds last ≡ (client_after formats (map stamped rounds)).database
  written-client_after start rounds last hh h =
      run_sqlite_writer-stored formats hours names start rounds [] [] last hh
        (All-map (IsStored formats start hours) (IsWithin start hours) (λ r i. i.within) rounds h)
        tt
      ∙ ap (λ rs. record { query_logs = table_of rs; indices = [] })
          (stored_all-rows_for start rounds h)
      ∙ sym (insert_all-rows formats (map stamped rounds) [] [])

  -- If the thread stores at most a hundred entries within one retention into an empty table, and no
  -- insertion fails and the entries can be read back, then the API shows exactly those entries, in some
  -- order and without the numbers of their sources.
  pub logs-run_sqlite_writer :
      (sqlite : Sqlite) (start : ℕ) (rounds : List Round) (last : ℕ) (s : ApiState)
      → hours * 3600 < 2 ^ 63
      → All (IsStored formats start hours) rounds
      → length rounds ≤ 100
      → s.data_source ≡ persistent (record { database = written rounds last; poisoned = false })
      → (shown : List QueryLogEntry) × ((logs sqlite formats s).0 ≡ returns shown)
        × Perm shown (map (λ (r : Round). without_source r.entry) rounds)
  unfolding logs Source.get_logs
  logs-run_sqlite_writer sqlite start rounds last s hh h few source =
      let (shown, e, p) =
        get_logs-insert_all formats sqlite logs_limit (map stamped rounds) (omega arith)
          (omega (arith, few, length-map stamped rounds)) (AreReadable-stamped start rounds h) in
      let shows : (Source.get_logs sqlite formats logs_limit s.data_source).0 ≡ returns shown =
        ap (λ d. (Source.get_logs sqlite formats logs_limit d).0) source
        ∙ ap
            (λ db.
              (Queries.get_logs sqlite formats logs_limit
                (record { database = db; poisoned = false })).0)
            (written-client_after start rounds last hh h)
        ∙ e in
      (shown, shows, subst (Perm shown) (entries_of-stamped rounds) p)
