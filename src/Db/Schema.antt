-- ===== src/Db/Schema.antt =====
-- `DbClient::initialize` of src/db.rs: the table, the migration of an older one, and the indices.
use ad_nope.Prelude.{
  ◌≡◌, refl, ◌⊎◌, String, Bool, true, false, ◌||◌, not, Option, none, some, List, [], ◌∷◌, Result,
  ok, err, arith, ◌==◌, string_eq, if◌then◌else◌,
}
use ad_nope.Db.{Row, Table, Database}

-- The statements that `initialize` executes.
pub data Statement : Type 0 where
  create_table count_column add_column : Statement
  create_index : String → Statement

unfoldable pub create_if_absent : Option Table → Table
create_if_absent (some t) = t
create_if_absent none = record { has_ttl_remaining = true; rows = [] }

abbrev pub has_column : Option Table → Bool
has_column none = false
has_column (some t) = t.has_ttl_remaining

abbrev pub with_column : Option Table → Option Table
with_column none = none
with_column (some t) = some (record t { has_ttl_remaining = true })

-- `CREATE INDEX IF NOT EXISTS`
unfoldable pub add_index : String → List String → List String
add_index name [] = name ∷ []
add_index name (i ∷ indices) = if i == name then i ∷ indices else i ∷ add_index name indices

-- `conn.execute(..)?`: what follows runs if the statement does not fail.
abbrev pub execute :
    (Statement → Bool)
    → Statement
    → (Database → Database)
    → (Database → Result (Unit {0}) × Database)
    → Database
    → Result (Unit {0}) × Database
execute fails statement change rest db =
    if fails statement then (err "SQLite failed", db) else rest (change db)

abbrev pub index_on :
    (Statement → Bool)
    → String
    → (Database → Result (Unit {0}) × Database)
    → Database
    → Result (Unit {0}) × Database
index_on fails name =
    execute fails (create_index name) (λ db. record db { indices = add_index name db.indices })

-- The migration. A count that fails is taken for 0; the failure of `ALTER TABLE`, which a column of
-- that name also causes, is only logged.
unfoldable pub migrate : (Statement → Bool) → Database → Database
migrate fails db =
    let column_exists = if fails count_column then false else has_column db.query_logs in
    if column_exists || fails add_column || has_column db.query_logs
    then db
    else record db { query_logs = with_column db.query_logs }

unfoldable pub initialize : (Statement → Bool) → Database → Result (Unit {0}) × Database
unfolding migrate create_if_absent add_index
initialize fails =
    execute fails create_table
      (λ db. record db { query_logs = some (create_if_absent db.query_logs) })
      (λ db.
        index_on fails "idx_logs_timestamp"
          (index_on fails "idx_logs_domain" (
            index_on fails "idx_logs_client_ip"
              (index_on fails "idx_logs_action" (λ db'. (ok tt, db')))))
          (migrate fails db))

-- The rows of a database.
abbrev pub rows_of : Option Table → List Row
rows_of none = []
rows_of (some t) = t.rows

migrate-rows_of :
    (fails : Statement → Bool) (db : Database)
    → rows_of (migrate fails db).query_logs ≡ rows_of db.query_logs
unfolding migrate
migrate-rows_of fails db = ground arith

-- Whatever statements fail, `initialize` keeps the rows that the database had.
initialize-rows_of :
    (fails : Statement → Bool) (db : Database)
    → rows_of (initialize fails db).1.query_logs ≡ rows_of db.query_logs
unfolding initialize create_if_absent
initialize-rows_of fails db = ground (
  arith,
  migrate-rows_of fails (record db { query_logs = some (create_if_absent db.query_logs) }),
)

migrate-some :
    (fails : Statement → Bool) (db : Database) (t : Table)
    → db.query_logs ≡ some t
    → (migrate fails db).query_logs
      ≡ some (record t { has_ttl_remaining = t.has_ttl_remaining || not (fails add_column) })
unfolding migrate
migrate-some fails db t h = ground arith

-- An initialisation that returns no error leaves a table, which has the column `ttl_remaining`
-- unless the statement that adds it failed.
initialize-ok :
    (fails : Statement → Bool) (db : Database)
    → (initialize fails db).0 ≡ ok tt
    → (t : Table) × ((initialize fails db).1.query_logs ≡ some t)
      × ((t.has_ttl_remaining ≡ true) ⊎ (fails add_column ≡ true))
unfolding initialize
initialize-ok fails db h =
    let t = create_if_absent db.query_logs in
    let u : Database = record db { query_logs = some t } in
    (
      record t { has_ttl_remaining = t.has_ttl_remaining || not (fails add_column) },
      ground (arith, migrate-some fails u t refl),
      ground arith,
    )
