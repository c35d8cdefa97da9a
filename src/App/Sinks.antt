-- ===== src/App/Sinks.antt =====
-- The data source of the API and the sinks of the logger, as `main` of src/main.rs chooses them.
use ad_nope.Prelude.{
  ◌≡◌, refl, ap, String, Bool, true, false, ◌||◌, ◌&&◌, not, Option, none, some, List, [], ◌∷◌,
  ◌++◌, Bool-cases, ==_iff, ◌⊎◌, inl, inr, arith, ◌==◌, string_eq,
}
use ad_nope.Config.{Config}
use ad_nope.Logger.{
  Channel, channel_for, Sink, console, sqlite, memory, configured_sinks, extra_channels, new,
}
use ad_nope.Stats.{StatsCollector}
use ad_nope.Db.Schema.{Statement}
use ad_nope.Db.Queries.{DbClient}
use ad_nope.Api.Source.{ApiDataSource, in_memory, persistent}
use ad_nope.App.{
  Connecting, connect, has_writer, contains_sink, init_query_logger, init_sqlite_db,
  create_memory_source, choose_source,
}

abbrev pub is_memory : Sink → Bool
is_memory console = false
is_memory sqlite = false
is_memory memory = true

abbrev pub is_sqlite : Sink → Bool
is_sqlite console = false
is_sqlite sqlite = true
is_sqlite memory = false

-- Whether one of the channels feeds such a sink.
abbrev pub feeds : (Sink → Bool) → List Channel → Bool
feeds p [] = false
feeds p (c ∷ cs) = p c.sink || feeds p cs

abbrev pub reads_memory : ApiDataSource → Bool
reads_memory (in_memory stats sink) = true
reads_memory (persistent db) = false

feeds-append :
    (p : Sink → Bool) (cs ds : List Channel) → feeds p (cs ++ ds) ≡ feeds p cs || feeds p ds
feeds-append p [] ds = refl
feeds-append p (c ∷ cs) ds = ground (arith, feeds-append p cs ds)

configured_sinks-memory :
    (sinks : List String) (writer : Bool) → feeds is_memory (configured_sinks sinks writer) ≡ false
unfolding configured_sinks
configured_sinks-memory [] writer = refl
configured_sinks-memory (s ∷ rest) writer =
    let same = configured_sinks-memory rest writer in
    let without = configured_sinks-memory rest false in ground arith

not_sqlite : (s : String) → (s == "console") ≡ true → (s == "sqlite") ≡ false
not_sqlite s e = ap (λ t. t == "sqlite") ((==_iff s "console").0 e)

configured_sinks-sqlite :
    (sinks : List String) (writer : Bool)
    → feeds is_sqlite (configured_sinks sinks writer) ≡ contains_sink "sqlite" sinks && writer
unfolding configured_sinks contains_sink
configured_sinks-sqlite [] writer = refl
configured_sinks-sqlite (s ∷ rest) writer =
    let same = configured_sinks-sqlite rest writer in
    let without = configured_sinks-sqlite rest false in ground (arith, not_sqlite s)

-- What is claimed of the source and the logger that go with a client.
abbrev Agree : Connecting → ApiDataSource × List Channel → Type 0
Agree writing (source, logger) =
    (feeds is_memory logger ≡ reads_memory source)
    × (feeds is_sqlite logger ≡ not (reads_memory source) && has_writer (connect writing))

Agree-choose_source :
    (writing : Connecting) (config : Config) (stats : StatsCollector) (client : Option DbClient)
    → (client ≡ none) ⊎ (contains_sink "sqlite" config.logging.query_log_sinks ≡ true)
    → Agree writing (choose_source config stats writing client)
unfolding choose_source init_query_logger new create_memory_source extra_channels
Agree-choose_source writing config stats none h =
    let sinks = configured_sinks config.logging.query_log_sinks false in
    let m = configured_sinks-memory config.logging.query_log_sinks false in
    let q = configured_sinks-sqlite config.logging.query_log_sinks false in
    let am = feeds-append is_memory sinks (channel_for memory ∷ []) in
    let aq = feeds-append is_sqlite sinks (channel_for memory ∷ []) in (ground arith, ground arith)
Agree-choose_source writing config stats (some client) (inl e) = cc
Agree-choose_source writing config stats (some client) (inr e) =
    let writer = has_writer (connect writing) in
    let sinks = configured_sinks config.logging.query_log_sinks writer in
    let m = configured_sinks-memory config.logging.query_log_sinks writer in
    let q = configured_sinks-sqlite config.logging.query_log_sinks writer in
    let am = feeds-append is_memory sinks [] in
    let aq = feeds-append is_sqlite sinks [] in (ground arith, ground arith)

init_sqlite_db-configured :
    (fails : Statement → Bool) (reading : Connecting) (config : Config)
    → (init_sqlite_db fails reading config ≡ none)
      ⊎ (contains_sink "sqlite" config.logging.query_log_sinks ≡ true)
unfolding init_sqlite_db
init_sqlite_db-configured fails reading config =
    elim (Bool-cases (contains_sink "sqlite" config.logging.query_log_sinks)) [
      | inl e ↦ inr e
      | inr e ↦ inl (rw e refl)
    ]

-- For every configuration and whatever the connections do: the logger feeds the memory sink exactly
-- if the API reads from memory, and it feeds the SQLite sink exactly if the API reads the database
-- and the connection of the log writer was opened.
pub choose_source-feeds :
    (fails : Statement → Bool) (reading writing : Connecting) (config : Config)
    (stats : StatsCollector)
    → (feeds is_memory (choose_source config stats writing (init_sqlite_db fails reading config)).1
        ≡ reads_memory (choose_source config stats writing (init_sqlite_db fails reading config)).0)
      × (feeds is_sqlite
            (choose_source config stats writing (init_sqlite_db fails reading config)).1
          ≡ not (
              reads_memory
                (choose_source config stats writing (init_sqlite_db fails reading config)).0)
            && has_writer (connect writing))
choose_source-feeds fails reading writing config stats =
    Agree-choose_source writing config stats (init_sqlite_db fails reading config)
      (init_sqlite_db-configured fails reading config)
