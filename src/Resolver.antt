-- ===== src/Resolver.antt =====
-- src/resolver/mod.rs, types.rs: an upstream, its replies, and what a reply means.
pub mod Policies
pub mod Order
pub mod Answers
pub mod Create
pub mod Startup
use ad_nope.Prelude.{
  ℕ, String, Bool, List, [], ◌∷◌, Option, none, some, Result, ok, err, if◌then◌else◌,
}
use ad_nope.Prelude.Text.{contains}
use ad_nope.Net.{IpAddr}
use ad_nope.Dns.{Record}
use ad_nope.Stats.{StatsCollector, record_upstream_latency}

-- How hickory reaches a server: the settings that the program passes.
pub data Protocol : Type 0 where
  udp tcp tls https quic h3 : Protocol

pub record NameServer : Type 0 where
  pub address : IpAddr
  pub port : ℕ
  pub protocol : Protocol
  pub tls_dns_name : Option String
  pub timeout_ms : ℕ

pub record Upstream : Type 0 where
  pub url : String
  pub resolver : NameServer

-- The reply of an upstream to one lookup: its records or the error's text, and the milliseconds
-- from the start of the resolution to this reply.
pub record Reply : Type 0 where
  pub res : Result (List Record)
  pub elapsed_ms : ℕ

-- The records of an answer, and the upstream that gave it.
abbrev pub Answer : Type 0
Answer = List Record × String

unfoldable pub handle_lookup_result :
    Reply → StatsCollector → ℕ → String → Result Answer × StatsCollector
handle_lookup_result reply stats idx url = elim reply.res [
  | ok records ↦ (ok (records, url), record_upstream_latency stats idx reply.elapsed_ms)
  | err e ↦
      if contains "no records found" e
      then (ok ([], url), record_upstream_latency stats idx reply.elapsed_ms)
      else (err e, stats)
]
