-- ===== src/Logger.antt =====
-- src/logger: the entries of the query log, and `QueryLogger`, which hands an entry to the channel
-- of each sink without waiting.
pub mod Delivery
pub mod Memory
pub mod Names
pub mod Outcomes
pub mod Console
pub mod Writer
use ad_nope.Prelude.{
  ℕ, ◌+◌, ◌-◌, ◌<◌, String, Bool, true, false, ◌||◌, List, [], ◌∷◌, ◌++◌, Option, none, some,
  length, ltb, not, ◌==◌, nat_eq, string_eq, if◌then◌else◌,
}
use ad_nope.Config.{LoggingConfig}
use ad_nope.Net.{IpAddr}
use ad_nope.Dns.{RecordType}

pub data QueryLogAction : Type 0 where
  allowed blocked cached forwarded local : QueryLogAction

pub record QueryLogEntry : Type 0 where
  pub client_ip : IpAddr
  pub domain : String
  pub query_type : RecordType
  pub action : QueryLogAction
  pub source_id : Option ℕ
  pub upstream : Option String
  pub latency_ms : ℕ
  pub ttl_remaining : Option ℕ

-- Which sink the task behind a channel feeds.
pub data Sink : Type 0 where
  console sqlite memory : Sink

-- A bounded `mpsc` channel: the entries that its task has not received yet, the oldest first.
pub record Channel : Type 0 where
  pub sink : Sink
  pub queue : List QueryLogEntry
  pub closed : Bool

abbrev pub channel_size : ℕ
channel_size = 1000

-- `mpsc::channel(1000)`, with the task that receives for the sink
abbrev pub channel_for : Sink → Channel
channel_for sink = record { sink = sink; queue = []; closed = false }

-- The loop of `new` over the configured sinks; `writer` says whether the log writer is still there.
unfoldable pub configured_sinks : List String → Bool → List Channel
configured_sinks [] writer = []
configured_sinks (sink_type ∷ rest) writer =
    if sink_type == "console"
    then channel_for console ∷ configured_sinks rest writer
    else if sink_type == "sqlite"
    then (if writer
        then channel_for sqlite ∷ configured_sinks rest false
        else configured_sinks rest false)
    else configured_sinks rest writer

unfoldable pub extra_channels : List Sink → List Channel
extra_channels [] = []
extra_channels (sink ∷ rest) = channel_for sink ∷ extra_channels rest

unfoldable pub new : LoggingConfig → List Sink → Bool → List Channel
unfolding configured_sinks extra_channels
new config extra_sinks log_writer =
    configured_sinks config.query_log_sinks log_writer ++ extra_channels extra_sinks

-- `let _ = sink.try_send(entry)`: nothing happens to a channel that is full or closed.
unfoldable pub try_send : QueryLogEntry → Channel → Channel
try_send entry c =
    if c.closed || not (ltb (length c.queue) channel_size)
    then c
    else record c { queue = c.queue ++ (entry ∷ []) }

-- The loop of `log`: the last sink is given the entry itself, which ends the loop, and the others a
-- clone.
unfoldable pub log_from : ℕ → ℕ → QueryLogEntry → List Channel → List Channel
unfolding try_send
log_from len i entry [] = []
log_from len i entry (sink ∷ rest) =
    let others = log_from len (i + 1) entry rest in
    if i == len - 1 then try_send entry sink ∷ rest else try_send entry sink ∷ others

unfoldable pub log : QueryLogEntry → List Channel → List Channel
unfolding log_from
log entry sinks = log_from (length sinks) 0 entry sinks

-- The task behind a channel receives the oldest entry.
unfoldable pub recv : Channel → Option (QueryLogEntry × Channel)
recv c = elim c.queue [ [] ↦ none | entry ∷ rest ↦ some (entry, record c { queue = rest }) ]
