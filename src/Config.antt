-- ===== src/Config.antt =====
-- src/config.rs: the settings, their defaults, and how they are loaded.
pub mod Blocklists
use ad_nope.Prelude.{
  ℕ, String, Bool, true, false, Option, none, some, List, [], ◌∷◌, Result, ok, err,
}
use ad_nope.Prelude.HashMap.{HashMap}
use ad_nope.Net.{IpAddr}

pub record CacheConfig : Type 0 where
  pub enable : Bool
  pub capacity : ℕ
  pub grace_period_sec : ℕ
  pub min_ttl : ℕ

pub record UpdateConfig : Type 0 where
  pub interval_hours : ℕ
  pub concurrent_downloads : ℕ

pub record LoggingConfig : Type 0 where
  pub enable : Bool
  pub log_blocked : Bool
  pub log_all_queries : Bool
  pub format : String
  pub target : String
  pub level : String
  pub file_path : Option String
  pub syslog_addr : Option String
  pub query_log_sinks : List String
  pub sqlite_path : String
  pub sqlite_retention_hours : ℕ

pub record StatsConfig : Type 0 where
  pub enable : Bool
  pub log_interval_seconds : ℕ

pub record Config : Type 0 where
  pub host : String
  pub port : ℕ
  pub upstream_servers : List String
  pub resolution_policy : String
  pub upstream_timeout_ms : ℕ
  pub disable_ipv6 : Bool
  pub bootstrap_dns : List String
  pub blocklists : HashMap String String
  pub allowlist : List String
  pub cache : CacheConfig
  pub updates : UpdateConfig
  pub logging : LoggingConfig
  pub local_records : HashMap String IpAddr
  pub stats : StatsConfig

abbrev pub default_min_ttl : ℕ
default_min_ttl = 300

abbrev pub default_host : String
default_host = "0.0.0.0"

abbrev pub default_port : ℕ
default_port = 5300

abbrev pub default_resolution_policy : String
default_resolution_policy = "parallel"

abbrev pub default_upstream_timeout_ms : ℕ
default_upstream_timeout_ms = 200

abbrev pub default_cache_enable : Bool
default_cache_enable = true

abbrev pub default_cache_capacity : ℕ
default_cache_capacity = 10000

abbrev pub default_grace_period : ℕ
default_grace_period = 10

abbrev pub default_update_interval : ℕ
default_update_interval = 24

abbrev pub default_concurrent_downloads : ℕ
default_concurrent_downloads = 4

abbrev pub default_log_enable : Bool
default_log_enable = true

abbrev pub default_log_blocked : Bool
default_log_blocked = true

abbrev pub default_log_all_queries : Bool
default_log_all_queries = true

abbrev pub default_log_format : String
default_log_format = "text"

abbrev pub default_log_target : String
default_log_target = "console"

abbrev pub default_log_level : String
default_log_level = "info"

abbrev pub default_query_log_sinks : List String
default_query_log_sinks = "console" ∷ []

abbrev pub default_sqlite_path : String
default_sqlite_path = "ad-nope.db"

abbrev pub default_sqlite_retention_hours : ℕ
default_sqlite_retention_hours = 168

abbrev pub default_stats_enable : Bool
default_stats_enable = true

abbrev pub default_log_interval : ℕ
default_log_interval = 300

abbrev pub default_disable_ipv6 : Bool
default_disable_ipv6 = false

abbrev pub default_blocklists : HashMap String String
default_blocklists =
    (
      "default",
      "https://cdn.jsdelivr.net/gh/hagezi/dns-blocklists@latest/wildcard/pro-onlydomains.txt",
    )
    ∷ []

abbrev pub default_upstream_servers : List String
default_upstream_servers = "h3://dns.google/dns-query" ∷ []

abbrev pub default_bootstrap_dns : List String
default_bootstrap_dns = "8.8.8.8:53" ∷ []

abbrev pub default_cache_config : CacheConfig
default_cache_config = record {
  enable = default_cache_enable;
  capacity = default_cache_capacity;
  grace_period_sec = default_grace_period;
  min_ttl = default_min_ttl;
}

abbrev pub default_update_config : UpdateConfig
default_update_config = record {
  interval_hours = default_update_interval;
  concurrent_downloads = default_concurrent_downloads;
}

abbrev pub default_logging_config : LoggingConfig
default_logging_config = record {
  enable = default_log_enable;
  log_blocked = default_log_blocked;
  log_all_queries = default_log_all_queries;
  format = default_log_format;
  target = default_log_target;
  level = default_log_level;
  file_path = none;
  syslog_addr = none;
  query_log_sinks = default_query_log_sinks;
  sqlite_path = default_sqlite_path;
  sqlite_retention_hours = default_sqlite_retention_hours;
}

abbrev pub default_stats_config : StatsConfig
default_stats_config = record {
  enable = default_stats_enable;
  log_interval_seconds = default_log_interval;
}

abbrev pub default_config : Config
default_config = record {
  host = default_host;
  port = default_port;
  upstream_servers = default_upstream_servers;
  resolution_policy = default_resolution_policy;
  upstream_timeout_ms = default_upstream_timeout_ms;
  disable_ipv6 = default_disable_ipv6;
  bootstrap_dns = default_bootstrap_dns;
  blocklists = default_blocklists;
  allowlist = [];
  cache = default_cache_config;
  updates = default_update_config;
  logging = default_logging_config;
  local_records = [];
  stats = default_stats_config;
}

-- `Config::load`: what the file holds, if it can be read, and the TOML parser are parameters.
abbrev pub parsed : Option Config → Result Config
parsed none = err "Failed to parse config TOML"
parsed (some config) = ok config

unfoldable pub load : Option String → (String → Option Config) → Result Config
load none from_str = err "Failed to read config file"
load (some contents) from_str = parsed (from_str contents)
