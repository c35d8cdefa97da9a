-- ===== src/Tests/Fixtures.antt =====
-- What the tests share: a cache, the parser of names, and an upstream.
use ad_nope.Prelude.{ℕ, refl, [], String, none, some, ok, inr, pair_eq, string_eq}
use ad_nope.Prelude.HashMap
use ad_nope.Prelude.HashMap.{HashMap, get-insert}
use ad_nope.Net.{v4}
use ad_nope.Dns.{type_eq}
use ad_nope.Resolver.{Upstream, udp}
use ad_nope.Resolver.Create.{Environment}
use ad_nope.Engine.State.{from_secs}
use ad_nope.Server.Interfaces.{CacheLibrary, Key, Entry, NameParser}

abbrev pub last_instant : ℕ
last_instant = from_secs 10_000_000_000

-- A cache that never drops an entry.
abbrev pub unbounded : CacheLibrary
unbounded = record {
  Store = HashMap Key Entry;
  max_instant = last_instant;
  build = λ capacity. [];
  get = λ s k. (HashMap.get k s, s);
  insert = λ s k e. HashMap.insert k e s;
  get-build = λ capacity k. HashMap.get-nil k;
  get-insert = λ s k j e. inr (get-insert k j e s);
  get-get = λ s k j. inr refl;
}

abbrev pub names : NameParser
names = record { from_str = λ s. some s; default_name = "." }

abbrev pub upstream : String → Upstream
upstream url = record {
  url = url;
  resolver = record {
    address = v4 1;
    port = 53;
    protocol = udp;
    tls_dns_name = none;
    timeout_ms = 200;
  };
}

-- Every host is an address, and every text a URL of the scheme `udp`.
abbrev pub environment : Environment
environment = record {
  parse_url = λ text. some (record { scheme = "udp"; port = none; host = some text });
  parse_ip = λ text. some (v4 1);
  parse_socket = λ text. none;
  lookup_ip = λ servers host. ok [];
}
