-- ===== src/App.antt =====
-- src/main.rs and src/init.rs: how the program is put together at its start. The subscriber of the traces
-- is not modelled.
pub mod Sinks
pub mod Start
pub mod Updater
pub mod Program
pub mod Main
pub mod Running
pub mod Logs
use ad_nope.Prelude.{
  ℕ, String, Bool, true, false, ◌||◌, not, Option, none, some, List, [], ◌∷◌, map, Result, ok, err,
  get_or, ◌==◌, string_eq, if◌then◌else◌,
}
use ad_nope.Prelude.Text.{concat, contains}
use ad_nope.Config
use ad_nope.Config.{Config, default_config}
use ad_nope.Config.Blocklists.{get_blocklists_sorted}
use ad_nope.Db.{Database}
use ad_nope.Db.Schema.{Statement, initialize}
use ad_nope.Db.Queries.{DbClient}
use ad_nope.Logger
use ad_nope.Logger.{Channel, Sink, memory}
use ad_nope.Logger.Memory
use ad_nope.Stats
use ad_nope.Stats.{StatsCollector}
use ad_nope.Api.Source.{ApiDataSource, in_memory, persistent}

-- The path is the first argument, or the default; `exists` and `read` are the file system.
unfoldable pub config_path : Option String → String
config_path argument = get_or argument "config.toml"

unfoldable pub load_config :
    Option String
    → (String → Bool)
    → (String → Option String)
    → (String → Option Config)
    → Result (Config × String)
unfolding config_path Config.load
load_config argument exists read from_str =
    let path = config_path argument in
    if exists path
    then elim (Config.load (read path) from_str) [ ok config ↦ ok (config, path) | err e ↦ err e ]
    else ok (default_config, path)

-- The filter of `setup_logging` where the environment gives none.
unfoldable pub log_filter : String → String
unfolding contains
log_filter level =
    let server =
      if contains "hickory_server" level then level else concat level ",hickory_server=off" in
    if contains "hickory_proto" server then server else concat server ",hickory_proto=off"

unfoldable pub init_app_stats : ℕ → Config → StatsCollector × List String
unfolding Stats.new get_blocklists_sorted
init_app_stats now config =
    let blocklist_names =
      map (λ (list : String × String). list.0) (get_blocklists_sorted config.blocklists) in
    (
      Stats.new now config.stats.log_interval_seconds config.upstream_servers blocklist_names,
      blocklist_names,
    )

abbrev pub extra_sinks : Option Sink → List Sink
extra_sinks none = []
extra_sinks (some sink) = sink ∷ []

-- The log writer is given or not.
unfoldable pub init_query_logger : Config → Bool → Option Sink → List Channel
unfolding Logger.new
init_query_logger config log_writer memory_sink =
    Logger.new config.logging (extra_sinks memory_sink) log_writer

-- What opening a connection does: `Connection::open`, with the database that is there, and whether
-- the journal mode and the timeout are set.
pub record Connecting : Type 0 where
  pub opened : Option Database
  pub journal_set : Bool
  pub timeout_set : Bool

-- `DbClient::new` and `LogWriter::new`
unfoldable pub connect : Connecting → Result Database
connect c = elim c.opened [
  | none ↦ err "unable to open database file"
  | some db ↦
      if not c.journal_set
      then err "journal_mode"
      else if not c.timeout_set
      then err "busy_timeout"
      else ok db
]

abbrev pub initialized : Result (Unit {0}) × Database → Option DbClient
initialized (ok _, db) = some (record { database = db; poisoned = false })
initialized (err e, db) = none

abbrev pub opened_client : (Statement → Bool) → Result Database → Option DbClient
opened_client fails (err e) = none
opened_client fails (ok db) = initialized (initialize fails db)

unfoldable pub contains_sink : String → List String → Bool
contains_sink sink [] = false
contains_sink sink (s ∷ rest) = s == sink || contains_sink sink rest

unfoldable pub init_sqlite_db : (Statement → Bool) → Connecting → Config → Option DbClient
unfolding contains_sink connect
init_sqlite_db fails connecting config =
    if contains_sink "sqlite" config.logging.query_log_sinks
    then opened_client fails (connect connecting)
    else none

abbrev pub memory_capacity : ℕ
memory_capacity = 100

unfoldable pub create_memory_source : StatsCollector → Option Sink × ApiDataSource
unfolding Memory.new
create_memory_source stats = (some memory, in_memory stats (Memory.new memory_capacity))

-- The log writer, if its connection is opened.
abbrev pub has_writer : Result Database → Bool
has_writer (ok db) = true
has_writer (err e) = false

-- `main`, from the database client to the data source and the logger.
unfoldable pub choose_source :
    Config → StatsCollector → Connecting → Option DbClient → ApiDataSource × List Channel
unfolding connect init_query_logger create_memory_source
choose_source config stats writing (some client) =
    (persistent client, init_query_logger config (has_writer (connect writing)) none)
choose_source config stats writing none =
    let (sink, source) = create_memory_source stats in (source, init_query_logger config false sink)
