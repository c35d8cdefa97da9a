-- ===== src/Tests/Logger.antt =====
-- The theorems on the query log, at concrete inputs.
use ad_nope.Prelude.{
  ◌≡◌, ◌<◌, ◌≤◌, ◌⊎◌, refl, List, [], ◌∷◌, map, some, none, true, false, get_elem?, arith,
}
use ad_nope.Net.{v4}
use ad_nope.Dns.{a}
use ad_nope.Logger.{
  QueryLogEntry, forwarded, Channel, channel_for, channel_size, console, sqlite, try_send, log,
}
use ad_nope.Logger.Delivery.{log-map, get_elem?-log}
use ad_nope.Logger.Memory
use ad_nope.Logger.Memory.{get_recent, get_logs, log_all, last_of, log_all-get_logs}

abbrev entry : QueryLogEntry
entry = record {
  client_ip = v4 1;
  domain = "a.com";
  query_type = a;
  action = forwarded;
  source_id = none;
  upstream = some "udp://1";
  latency_ms = 12;
  ttl_remaining = none;
}

abbrev channels : List Channel
channels = channel_for console ∷ channel_for sqlite ∷ []

log-map_example : log entry channels ≡ map (try_send entry) channels
log-map_example = log-map entry channels

get_elem?-log_example :
    ((false ≡ false)
      × (0 < channel_size)
      × (get_elem? (log entry channels) 1
          ≡ some (record (channel_for sqlite) { queue = entry ∷ [] })))
    ⊎ (((false ≡ true) ⊎ (channel_size ≤ 0))
        × (get_elem? (log entry channels) 1 ≡ some (channel_for sqlite)))
get_elem?-log_example = get_elem?-log entry channels 1 (channel_for sqlite) refl

log_all-get_logs_example :
    (get_recent (log_all (Memory.new 2) (entry ∷ entry ∷ entry ∷ [])) ≡ entry ∷ entry ∷ [])
    × (get_logs (log_all (Memory.new 2) (entry ∷ entry ∷ entry ∷ [])) 1 ≡ entry ∷ [])
log_all-get_logs_example = log_all-get_logs 2 1 (entry ∷ entry ∷ entry ∷ []) (omega arith)
