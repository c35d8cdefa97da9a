-- ===== src/Lib.antt =====
-- AdNope, a DNS server that answers queries from local records, blocks the domains of downloaded
-- lists, caches answers and forwards the rest to upstream servers.
--
-- The parts, with the files that model them:
-- - Config, Config/Blocklists: the settings, their defaults, loading, and the blocklists in the order
--   of their names (src/config.rs).
-- - Engine/Matcher with Suffix and Laws: `HashedMatcher::new` and `check`
--   (src/engine/domain_matcher.rs). The loop of `check` recurses on the length of the text that is
--   left, and needs no fuel.
-- - Engine/Blocklist with Sources and Refresh: `parse_line`, `fetch_and_parse` and `refresh`
--   (src/engine/blocklist_manager.rs). HTTP is a function from an address to the lines of the body or
--   a failure. The order in which the downloads complete is an argument, a list of picks among the
--   downloads that are left; every order is one, also those that the limit on concurrent downloads
--   excludes, and the limit is taken to be positive.
-- - Engine/State with Pause: `AppState` (src/engine/state.rs). Instants are nanoseconds, and the last
--   instant of the platform is an argument. A panic under the write lock poisons it.
-- - Stats with Events, Positions, Counters, SourceCounts, TopK and Dump: `StatsCollector` (src/stats.rs), with counters
--   modulo 2^64 as a release build has them. Dump is the text of `dump_stats`.
-- - Resolver with Policies, Order and Answers: the four ways to ask the upstreams
--   (src/resolver/single.rs, sequential.rs, parallel.rs, round_robin.rs) on the reply of each
--   upstream, and `handle_lookup_result` (src/resolver/mod.rs). Resolver/Create and Startup:
--   `create_resolver`.
-- - Logger with Delivery and Memory: `QueryLogger` and its bounded channels (src/logger/mod.rs), the
--   ring buffer (src/logger/memory_sink.rs) and the API's view of it (src/api/in_memory_stats.rs).
-- - Server: `DnsHandler` (src/server/dns_request_handler.rs). Server/Interfaces holds what it relies
--   on: the resolver behind its trait, the moka cache, which may drop an entry at any operation, and
--   the parser of names. Server/Action is the passing of state through calls that may panic,
--   Server/Cache is `resolve_and_cache` and `check_cache`, Server/Query the data of requests,
--   Server/Handler with Responses the construction and `handle_request` with what it calls.
--   The instants at which a cached answer expires end with the platform's last one, past which their
--   computation panics. Server/Lifetime, Server/Replies, Server/Blocking with Branch, Server/Paused,
--   Server/Filter and Server/Overflow hold the proofs, with lemmas on the pause, the counters and the
--   caching in Server/Untouched, Server/Accounts, Server/Caching and Server/Expiry.
--   Server/Upstreams makes the policies of Resolver the resolver of the handler, and Server/Wire
--   follows the times to live of its answers. Server/Tasks with Ends, Alone, System, Sending,
--   Delivery, Progress, Turns, Answered, Filtered and Logging: `handle_request` cut into its
--   accesses to the shared state, and tasks whose accesses interleave in any order. What a request
--   moves together with an access (counters, a spawned task) counts as one access with it; a
--   background task may stand in the system from its start and have its turns at any time.
-- - Db: the table of src/db.rs and the statements on it. Db/Schema is `initialize`, Db/Queries
--   `get_stats` and `get_logs`; Db/Entries, Db/Counts and Db/Retention hold the proofs. An `i64` is its
--   bit pattern. The order in which SQLite visits rows is a parameter, and each statement may fail.
-- - Logger/Console (src/logger/console_sink.rs) and Logger/Writer with Kept
--   (src/logger/sqlite_sink.rs): the sinks. Logger/Names: the name of a source; Logger/Outcomes: tests
--   on actions.
-- - Api with Source, Pausing and Refreshing: the handlers of the web API (src/api). The channel to the
--   updater holds one message; senders wait, and are counted. Api/Routes: the table of the routes and
--   the answer to a request, whose body another library decodes. Api/Commands, Api/Status and
--   Api/Channel: what a request does to the pause and to the channel.
-- - App with Sinks (src/main.rs, src/init.rs): the configuration's path, the data source and the sinks.
--   App/Start: the start of the handler, and the events that then happen to it; App/Running: what holds
--   of it. App/Logs follows entries from the SQLite thread to the API. App/Updater with Schedule: the
--   loop of `spawn_background_tasks` with the timer of tokio as an interface and time as instants.
--   App/Program with Refines, Served, Shown, Updates and Unbound: the running program, a step relation
--   in which the server, the updater and the web API share the pause and the channel; a request reads
--   statistics and logs from a source that comes with it. App/Main: `run_server` up to its sockets.
-- - Net, Dns: addresses, record types and records, as far as the program reads them.
-- - Prelude: lists, options, results, hash maps as association lists, strings as Rust's `str`, sorting,
--   and the picks of a schedule. Tests: the theorems at concrete inputs.
--
-- The handler of a request calls the matcher, the pause state, the cache and the resolver in that
-- order, counts in the statistics and hands an entry to the logger; its theorems are stated on one
-- record of that shared state. Outside Server/Tasks a request is handled as one step, and other tasks
-- act between requests; Server/Tasks has other tasks act within it.
--
-- Not modelled: the copying of bytes on sockets, the spawning of tasks, signals and traces of
-- src/main.rs and src/init.rs; the web framework, JSON and the type of an asset in the web API; the
-- timer of `run_logger`; the build script, which copies the files of the user interface; TOML, HTTP,
-- SQL, URL and address parsing, which other libraries do and which are parameters.
pub mod Prelude
pub mod Net
pub mod Dns
pub mod Config
pub mod Engine
pub mod Stats
pub mod Resolver
pub mod Logger
pub mod Server
pub mod Db
pub mod Api
pub mod App
pub mod Tests
