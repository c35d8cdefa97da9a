-- ===== src/Api/Source.antt =====
-- src/api/source.rs, in_memory_stats.rs, db_stats_source.rs: what the API reads, from the live
-- statistics and the memory log, or from the database.
use ad_nope.Prelude.{ℕ, List, Outcome, returns}
use ad_nope.Db.{Sqlite, Formats}
use ad_nope.Db.Queries
use ad_nope.Db.Queries.{DbClient}
use ad_nope.Logger.{QueryLogEntry}
use ad_nope.Logger.Memory
use ad_nope.Logger.Memory.{MemoryLogSink}
use ad_nope.Stats.{StatsCollector, StatsSnapshot, get_snapshot}

-- The two implementations. The collector and the sink are those that the handler and the logger
-- write to.
pub data ApiDataSource : Type 0 where
  in_memory : StatsCollector → MemoryLogSink → ApiDataSource
  persistent : DbClient → ApiDataSource

-- What the clocks show in seconds: the time where a snapshot starts and where it ends, and the time
-- since the start of the collector.
pub record Clocks : Type 0 where
  pub now : ℕ
  pub elapsed : ℕ
  pub updated : ℕ

module _ (sqlite : Sqlite) (formats : Formats) where
  unfoldable pub get_stats : Clocks → ApiDataSource → Outcome StatsSnapshot × ApiDataSource
  unfolding get_snapshot Queries.get_stats
  get_stats clocks (in_memory stats sink) = (
    returns (get_snapshot formats.ip_to_string stats clocks.now clocks.elapsed clocks.updated),
    in_memory stats sink,
  )
  get_stats clocks (persistent db) =
      let (o, db') = Queries.get_stats sqlite clocks.updated db in (o, persistent db')

  unfoldable pub get_logs : ℕ → ApiDataSource → Outcome (List QueryLogEntry) × ApiDataSource
  unfolding Memory.get_logs Queries.get_logs
  get_logs limit (in_memory stats sink) =
      (returns (Memory.get_logs sink limit), in_memory stats sink)
  get_logs limit (persistent db) =
      let (o, db') = Queries.get_logs sqlite formats limit db in (o, persistent db')
