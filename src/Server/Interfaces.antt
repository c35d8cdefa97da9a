-- ===== src/Server/Interfaces.antt =====
-- What src/server/dns_request_handler.rs relies on: the resolver behind its trait, the moka cache,
-- and hickory's parser of names.
use ad_nope.Prelude.{
  ℕ, ◌≡◌, ◌⊎◌, List, String, Option, none, some, Outcome, Result, ◌==◌, string_eq, pair_eq,
  if◌then◌else◌,
}
use ad_nope.Dns.{RecordType, Record, type_eq}
use ad_nope.Stats.{StatsCollector}
use ad_nope.Resolver.{Answer}

-- `dyn DnsResolver`. The state holds what the implementation changes and what the network will
-- reply; the statistics are shared with the handler.
pub record DnsResolver : Type 1 where
  pub State : Type 0
  pub resolve :
      State
      → StatsCollector
      → String
      → RecordType
      → Outcome (Result Answer) × State × StatsCollector

abbrev pub Key : Type 0
Key = String × RecordType

-- `(records, valid_until, stale_until)`
pub record Entry : Type 0 where
  pub records : List Record
  pub valid_until : ℕ
  pub stale_until : ℕ

-- moka's `Cache`: a bounded map that may drop an entry at any operation, and never invents or mixes
-- up entries. The instants of its entries are the platform's, which ends with `max_instant`.
pub record CacheLibrary : Type 1 where
  pub Store : Type 0
  pub max_instant : ℕ
  pub build : ℕ → Store
  pub get : Store → Key → Option Entry × Store
  pub insert : Store → Key → Entry → Store
  pub get-build : (capacity : ℕ) (k : Key) → (get (build capacity) k).0 ≡ none
  pub get-insert :
      (s : Store) (k j : Key) (e : Entry)
      → ((get (insert s k e) j).0 ≡ none)
        ⊎ ((get (insert s k e) j).0 ≡ (if k == j then some e else (get s j).0))
  pub get-get :
      (s : Store) (k j : Key)
      → ((get (get s k).1 j).0 ≡ none) ⊎ ((get (get s k).1 j).0 ≡ (get s j).0)

-- `Name::from_str`, and the text of `Name::default()`.
pub record NameParser : Type 0 where
  pub from_str : String → Option String
  pub default_name : String
