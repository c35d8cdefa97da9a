-- ===== src/App/Main.antt =====
-- `run_server` of src/main.rs, up to the server that then runs until a signal: the host is parsed, and
-- the two sockets are bound.
use ad_nope.Prelude.{
  ℕ, ◌≡◌, ◌↔◌, refl, Option, none, some, Result, ok, err, Outcome, returns, panics,
}
use ad_nope.Net.{IpAddr}
use ad_nope.Config.{Config}
use ad_nope.Resolver.Create.{Environment}

-- `bind` on the UDP and on the TCP socket.
pub record Sockets : Type 0 where
  pub bind_udp : IpAddr × ℕ → Result (Unit {0})
  pub bind_tcp : IpAddr × ℕ → Result (Unit {0})

-- `?` on a result whose value is not used.
abbrev pub and_then : Result (Unit {0}) → Result (Unit {0}) → Result (Unit {0})
and_then (ok _) r = r
and_then (err e) r = err e

module _ (env : Environment) (sockets : Sockets) where
  -- `parse().unwrap()` on the host, and the two sockets; the server then runs until a signal.
  abbrev pub listen : ℕ → Option IpAddr → Outcome (Result (Unit {0}))
  listen port none = panics
  listen port (some ip) =
      returns
        (and_then (sockets.bind_udp (ip, port)) (and_then (sockets.bind_tcp (ip, port)) (ok tt)))

  unfoldable pub run_server : Config → Outcome (Result (Unit {0}))
  run_server config = listen config.port (env.parse_ip config.host)

  listen-panics_iff :
      (port : ℕ) (parsed : Option IpAddr) → listen port parsed ≡ panics ↔ parsed ≡ none
  listen-panics_iff port none = (λ h. refl, λ h. refl)
  listen-panics_iff port (some ip) = (λ h. cc h, λ h. cc h)

  -- `run_server` panics exactly when the host of the configuration is no IP address; a port that is
  -- taken is an error instead.
  run_server-panics :
      (config : Config) → run_server config ≡ panics ↔ env.parse_ip config.host ≡ none
  unfolding run_server
  run_server-panics config = listen-panics_iff config.port (env.parse_ip config.host)
