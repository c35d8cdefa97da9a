-- ===== src/Db/Entries.antt =====
-- What src/db.rs stores of log entries, and shows of them again.
use mathlib.Core.List.{Perm, append-nil, append_assoc}
use mathlib.Core.List.Perm
use mathlib.Core.Path.{subst, ap₂}
use ad_nope.Prelude.{
  ℕ, ◌≤◌, ◌<◌, ◌^◌, ◌≡◌, refl, ap, ◌∙◌, String, true, false, Option, none, some, List, [], ◌∷◌,
  ◌++◌, map, returns, length, take, drop, min, length-map, length-append, All, arith,
}
use ad_nope.Prelude.Sort.{sort, sort-perm, IsSorted, sort-IsSorted}
use ad_nope.Prelude.Top.{
  take-append-drop, length-perm, length-take, take-IsSorted, take-first, IsFirst,
}
use ad_nope.Logger.{QueryLogAction, allowed, blocked, cached, forwarded, local, QueryLogEntry}
use ad_nope.Db.{
  Row, Table, Database, Sqlite, Formats, action_to_string, parse_action, row_of, entry_of,
  insert_log,
}
use ad_nope.Db.Queries.{DbClient, newer_first, limit_rows, latest_rows, get_logs}

nil_of_length {ℓ} : {A : Type ℓ} (xs : List A) → length xs ≡ 0 → xs ≡ []
nil_of_length [] h = refl
nil_of_length (x ∷ xs) h = absurd (omega arith)

limit_rows-lt :
    (limit : ℕ) (rows : List Row) → limit < 2 ^ 63 → limit_rows limit rows ≡ take limit rows
unfolding limit_rows
limit_rows-lt limit rows h = ground arith

-- The text of an action is read back as that action.
parse_action-action_to_string : (x : QueryLogAction) → parse_action (action_to_string x) ≡ x
unfolding parse_action action_to_string
parse_action-action_to_string allowed = refl
parse_action-action_to_string blocked = refl
parse_action-action_to_string cached = refl
parse_action-action_to_string forwarded = refl
parse_action-action_to_string local = refl

-- The entry without the number of its source, which the table does not have.
abbrev pub without_source : QueryLogEntry → QueryLogEntry
without_source e = record e { source_id = none }

-- An entry to insert: the time in seconds, the entry, and the name of the blocklist.
abbrev pub Stamped : Type 0
Stamped = ℕ × QueryLogEntry × Option String

module _ (formats : Formats) where
  -- The texts of the entry's address and type are read back.
  pub record IsReadable (e : QueryLogEntry) : Type 0 where
    pub ip : formats.ip_from_str (formats.ip_to_string e.client_ip) ≡ some e.client_ip
    pub qtype : formats.type_from_str (formats.type_to_string e.query_type) ≡ some e.query_type

  entry_of-row_of :
      (now : ℕ) (e : QueryLogEntry) (blocklist : Option String)
      → IsReadable e
      → entry_of formats (row_of formats now e blocklist) ≡ without_source e
  unfolding entry_of row_of
  entry_of-row_of now e blocklist h =
      ground (arith, h.ip, h.qtype, parse_action-action_to_string e.action)

  -- Insertions that do not fail.
  unfoldable pub insert_all : List Stamped → Database → Database
  insert_all [] db = db
  insert_all ((now, e, blocklist) ∷ rest) db =
      insert_all rest (insert_log formats false now e blocklist db).1

  abbrev pub rows_for : List Stamped → List Row
  rows_for = map (λ s. row_of formats s.0 s.1 s.2)

  pub insert_all-rows :
      (es : List Stamped) (rows : List Row) (indices : List String)
      → insert_all es (record {
        query_logs = some (record { has_ttl_remaining = true; rows = rows });
        indices = indices;
      })
        ≡ record {
          query_logs = some (record { has_ttl_remaining = true; rows = rows ++ rows_for es });
          indices = indices;
        }
  unfolding insert_all insert_log
  insert_all-rows [] rows indices = rw (append-nil rows) refl
  insert_all-rows ((now, e, blocklist) ∷ es) rows indices =
      insert_all-rows es (rows ++ (row_of formats now e blocklist ∷ [])) indices
      ∙ rw (append_assoc rows (row_of formats now e blocklist ∷ []) (rows_for es)) refl

  abbrev pub AreReadable : List Stamped → Type 0
  AreReadable = All (λ s. IsReadable s.1)

  entries_of-rows_for :
      (es : List Stamped)
      → AreReadable es
      → map (entry_of formats) (rows_for es) ≡ map (λ s. without_source s.1) es
  entries_of-rows_for [] h = refl
  entries_of-rows_for (s ∷ es) h =
      ap₂ (λ x xs. x ∷ xs) (entry_of-row_of s.0 s.1 s.2 h.0) (entries_of-rows_for es h.1)

  abbrev pub empty_table : Option Table
  empty_table = some (record { has_ttl_remaining = true; rows = [] })

  -- A client on the database after the insertions.
  abbrev pub client_after : List Stamped → DbClient
  client_after es = record {
    database = insert_all es (record { query_logs = empty_table; indices = [] });
    poisoned = false;
  }

  module _ (sqlite : Sqlite) where
    get_logs-rows_for :
        (limit : ℕ) (es : List Stamped)
        → (get_logs sqlite formats limit (client_after es)).0
          ≡ returns (map (entry_of formats) (latest_rows sqlite limit (rows_for es)))
    unfolding get_logs
    get_logs-rows_for limit es = rw (insert_all-rows es [] []) refl

    pub get_logs-IsFirst :
        (limit : ℕ) (es : List Stamped)
        → limit < 2 ^ 63
        → (shown : List Row) × (rest : List Row) × IsFirst newer_first (rows_for es) shown rest
          × (length shown ≡ min limit (length es))
          × ((get_logs sqlite formats limit (client_after es)).0
              ≡ returns (map (entry_of formats) shown))
    unfolding latest_rows
    get_logs-IsFirst limit es h =
        let rows = rows_for es in
        let sorted = sort newer_first (sqlite.arrange Row rows) in
        let p : Perm sorted rows =
          Perm.trans (sort-perm newer_first (sqlite.arrange Row rows))
            (sqlite.arrange-perm Row rows) in
        let s : IsSorted newer_first sorted =
          sort-IsSorted newer_first (λ x y e. ground arith) (λ x y z e f. ground arith) _ in
        (
          take limit sorted,
          drop limit sorted,
          record {
            parts = rw (take-append-drop limit sorted) p;
            sorted = take-IsSorted newer_first limit sorted s;
            first = take-first newer_first limit sorted s;
          },
          length-take limit sorted
              ∙ ap (λ n. min limit n)
                  (length-perm p ∙ length-map (λ (s : Stamped). row_of formats s.0 s.1 s.2) es),
          get_logs-rows_for limit es
              ∙ ap (λ rs. returns (map (entry_of formats) rs)) (limit_rows-lt limit sorted h),
        )

    -- Entries whose addresses and types are read back are all shown again, in some order and without
    -- the numbers of their sources, if the limit allows it.
    pub get_logs-insert_all :
        (limit : ℕ) (es : List Stamped)
        → limit < 2 ^ 63
        → length es ≤ limit
        → AreReadable es
        → (logs : List QueryLogEntry) × ((get_logs sqlite formats limit (client_after es)).0
            ≡ returns logs)
          × Perm logs (map (λ s. without_source s.1) es)
    unfolding latest_rows
    get_logs-insert_all limit es h all readable =
        let (shown, rest, top, len, e) = get_logs-IsFirst limit es h in
        let none_left : rest ≡ [] = nil_of_length rest (
          omega (
            arith,
            len,
            length-perm top.parts,
            length-append shown rest,
            length-map (λ (s : Stamped). row_of formats s.0 s.1 s.2) es,
          )) in
        let p : Perm shown (rows_for es) =
          subst (λ rs. Perm rs (rows_for es)) (append-nil shown)
            (subst (λ r. Perm (shown ++ r) (rows_for es)) none_left top.parts) in
        (
          map (entry_of formats) shown,
          e,
          subst (λ xs. Perm (map (entry_of formats) shown) xs) (entries_of-rows_for es readable)
              (Perm.map (entry_of formats) p),
        )
