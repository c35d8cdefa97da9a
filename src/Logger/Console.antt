-- ===== src/Logger/Console.antt =====
-- src/logger/console_sink.rs: `ConsoleLogSink`, which prints an entry or drops it. The texts of an
-- address and of a record type are parameters.
use ad_nope.Prelude.{
  ℕ, String, Bool, ◌&&◌, Option, none, some, List, get_or, ◌==◌, string_eq, if◌then◌else◌,
}
use ad_nope.Prelude.Text.{concat}
use ad_nope.Prelude.Decimal.{to_string}
use ad_nope.Config.{LoggingConfig}
use ad_nope.Net.{IpAddr}
use ad_nope.Dns.{RecordType}
use ad_nope.Logger.{QueryLogAction, allowed, blocked, cached, forwarded, local, QueryLogEntry}
use ad_nope.Logger.Names.{blocklist_name_of}

pub record ConsoleLogSink : Type 0 where
  pub config : LoggingConfig
  pub blocklist_names : List String

-- An event of the log: the fields of an entry, with the name of its source, or a line of text.
pub data Event : Type 0 where
  fields : QueryLogEntry → Option String → Event
  line : String → Event

unfoldable pub should_log : LoggingConfig → QueryLogAction → Bool
should_log config blocked = config.log_blocked
should_log config _ = config.log_all_queries

abbrev pub cached_str : Option ℕ → String
cached_str none = "fetched from cache"
cached_str (some ttl) = concat "fetched from cache. TTL remaining: " (concat (to_string ttl) "s")

abbrev pub forwarded_str : Option String → String
forwarded_str none = "fetched from upstream"
forwarded_str (some up) = concat "fetched from upstream " up

unfoldable pub action_str : List String → QueryLogEntry → QueryLogAction → String
action_str names entry local = "fetched from local_records"
action_str names entry blocked =
    concat "blocked and blocklist "
      (concat (get_or (blocklist_name_of names entry.source_id) "Unknown") " blocked it")
action_str names entry cached = cached_str entry.ttl_remaining
action_str names entry forwarded = forwarded_str entry.upstream
action_str names entry allowed = "Allowed"

module _ (ip_to_string : IpAddr → String) (type_to_string : RecordType → String) where
  -- `"[{}] {} {} ({}) -> {} [{}ms]"`
  unfoldable pub text_line : List String → QueryLogEntry → String
  unfolding action_str to_string
  text_line names entry =
      let query_type = type_to_string entry.query_type in
      concat "[" (
        concat query_type (
          concat "] " (
            concat (ip_to_string entry.client_ip) (
              concat " " (
                concat entry.domain (
                  concat " (" (
                    concat query_type (
                      concat ") -> " (
                        concat (action_str names entry entry.action)
                          (concat " [" (concat (to_string entry.latency_ms) "ms]")))))))))))

  unfoldable pub log : ConsoleLogSink → QueryLogEntry → Option Event
  unfolding should_log text_line
  log sink entry =
      if sink.config.enable && should_log sink.config entry.action
      then (if sink.config.format == "json"
          then some (fields entry (blocklist_name_of sink.blocklist_names entry.source_id))
          else some (line (text_line sink.blocklist_names entry)))
      else none
