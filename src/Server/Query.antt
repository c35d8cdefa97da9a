-- ===== src/Server/Query.antt =====
-- The data of src/server/dns_request_handler.rs and src/server/types.rs: requests, what the handler
-- reads from a query, the local records, and what is logged.
use ad_nope.Prelude.{
  ℕ, ◌-◌, ◌/◌, ◌%◌, Bool, false, List, [], ◌∷◌, String, Option, none, some, Outcome, returns,
  panics, get_or, ◌==◌, string_eq, if◌then◌else◌,
}
use ad_nope.Prelude.HashMap
use ad_nope.Prelude.HashMap.{HashMap}
use ad_nope.Prelude.Text.{ends_with, pop}
use ad_nope.Prelude.Case.{make_ascii_lowercase}
use ad_nope.Prelude.Words.{u64_mod}
use ad_nope.Net.{IpAddr, v4, v6}
use ad_nope.Dns.{
  RecordType, a, aaaa, RData, address4, address6, Record, record_type, type_eq, other,
}
use ad_nope.Config.{Config}
use ad_nope.Logger.{QueryLogAction, QueryLogEntry, blocked, cached, forwarded, local}
use ad_nope.Server.Interfaces.{NameParser}

pub record QueryContext : Type 0 where
  pub name : String
  pub qtype : RecordType
  pub start : ℕ

pub record LogContext : Type 0 where
  pub action : QueryLogAction
  pub source_id : Option ℕ
  pub upstream : Option String
  pub ttl_remaining : Option ℕ

-- A request: its source, its first query if it has one, and whether the response can be sent.
pub record Request : Type 0 where
  pub src : IpAddr
  pub query : Option (String × RecordType)
  pub deliverable : Bool

-- The instants that the handler reads while it serves one request.
pub record Clock : Type 0 where
  pub start : ℕ
  pub pause_check : ℕ
  pub cache_check : ℕ
  pub resolved : ℕ
  pub logged : ℕ

-- What a handler does not change: the settings and the local records.
pub record Handler : Type 0 where
  pub config : Config
  pub local_records : HashMap String (List Record)

abbrev pub address_data : IpAddr → RData
address_data (v4 n) = address4 n
address_data (v6 n) = address6 n

-- The records of a local address, if its domain is a name.
abbrev pub local_entry : ℕ → IpAddr → Option String → List Record
local_entry local_ttl ip none = []
local_entry local_ttl ip (some name) =
    record { name = name; ttl = local_ttl; rdata = address_data ip } ∷ []

abbrev pub add_local :
    String → List Record → HashMap String (List Record) → HashMap String (List Record)
add_local domain [] local_map = local_map
add_local domain (r ∷ rs) local_map = HashMap.insert domain (r ∷ rs) local_map

-- The loop over the configured records, the earlier ones first.
unfoldable pub local_records_from :
    NameParser
    → ℕ
    → HashMap String IpAddr
    → HashMap String (List Record)
    → HashMap String (List Record)
local_records_from names local_ttl [] local_map = local_map
local_records_from names local_ttl ((domain, ip) ∷ rest) local_map =
    local_records_from names local_ttl rest
      (add_local domain (local_entry local_ttl ip (names.from_str domain)) local_map)

unfoldable pub new_handler : NameParser → Config → Handler
unfolding local_records_from
new_handler names config = record {
  config = config;
  local_records = local_records_from names config.cache.min_ttl config.local_records [];
}

unfoldable pub without_dot : String → String
without_dot name = if ends_with 46 name then pop name else name

unfoldable pub get_query_info : Clock → Request → Outcome QueryContext
unfolding without_dot
get_query_info clock request = elim request.query [
  | none ↦ panics
  | some (name, qtype) ↦ returns (record {
    name = make_ascii_lowercase (without_dot name);
    qtype = qtype;
    start = clock.start;
  })
]

abbrev pub blocked_data : RecordType → Option RData
blocked_data a = some (address4 0)
blocked_data aaaa = some (address6 0)
blocked_data (other _) = none

-- The record that answers a blocked query, of an address type only.
unfoldable pub blocked_record : NameParser → QueryContext → Option Record
blocked_record names query = elim (blocked_data query.qtype) [
  | none ↦ none
  | some rdata ↦ some (record {
    name = get_or (names.from_str query.name) names.default_name;
    ttl = 60;
    rdata = rdata;
  })
]

unfoldable pub answers_query : RecordType → List Record → Bool
answers_query qtype [] = false
answers_query qtype (r ∷ rs) = record_type r == qtype

-- What the handlers log: their `log_factory` closures.
abbrev pub local_log : LogContext
local_log = record {
  action = local;
  source_id = none;
  upstream = some "local-config";
  ttl_remaining = none;
}

abbrev pub blocked_log : ℕ → LogContext
blocked_log source_id = record {
  action = blocked;
  source_id = some source_id;
  upstream = none;
  ttl_remaining = none;
}

abbrev pub cached_log : Option ℕ → LogContext
cached_log ttl = record { action = cached; source_id = none; upstream = none; ttl_remaining = ttl }

abbrev pub forwarded_log : String → LogContext
forwarded_log upstream = record {
  action = forwarded;
  source_id = none;
  upstream = some upstream;
  ttl_remaining = none;
}

abbrev pub ipv6_log : LogContext
ipv6_log = record {
  action = blocked;
  source_id = none;
  upstream = some "ipv6-disabled";
  ttl_remaining = none;
}

-- The entry that is logged for a query.
unfoldable pub log_entry : Clock → Request → QueryContext → LogContext → QueryLogEntry
log_entry clock request query log = record {
  client_ip = request.src;
  domain = query.name;
  query_type = query.qtype;
  action = log.action;
  source_id = log.source_id;
  upstream = log.upstream;
  latency_ms = (clock.logged - query.start) / 1_000_000 % u64_mod;
  ttl_remaining = log.ttl_remaining;
}
