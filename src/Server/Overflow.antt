-- ===== src/Server/Overflow.antt =====
-- The instants past the last one in `resolve_and_cache` of src/server/dns_request_handler.rs.
use ad_nope.Prelude.{
  ℕ, ◌+◌, ◌<◌, ◌≡◌, refl, ap, true, ltb, List, String, Outcome, returns, panics, Result, ok, err,
  arith,
}
use ad_nope.Config.{Config}
use ad_nope.Dns.{Record, type_eq}
use ad_nope.Engine.State.{from_secs}
use ad_nope.Resolver.{Answer}
use ad_nope.Server.Action.{resume_with}
use ad_nope.Server.Interfaces.{DnsResolver, CacheLibrary, NameParser, Key}
use ad_nope.Server.Cache.{
  Server, entry_at, served_records, cache_answer, cache_outcome, resolve_and_cache,
}
use ad_nope.Server.Query.{QueryContext, Request, Clock, Handler}
use ad_nope.Server.Handler.{resolve_and_serve, serve_answer}

past_end :
    (max_instant : ℕ) (config : Config) (now : ℕ) (records : List Record)
    → max_instant < now + from_secs config.cache.grace_period_sec
    → ltb max_instant (entry_at config now records).stale_until ≡ true
unfolding entry_at
past_end max_instant config now records past = ground arith

module _ (dns : DnsResolver) (moka : CacheLibrary) (names : NameParser) where
  cache_outcome-panics :
      (config : Config) (now : ℕ) (key : Key) (raw : List Record) (upstream : String)
      (o : Outcome (Result Answer)) (s : Server dns moka)
      → o ≡ returns (ok (raw, upstream))
      → moka.max_instant < now + from_secs config.cache.grace_period_sec
      → cache_outcome dns moka config now key o s ≡ (panics, s)
  unfolding cache_answer
  cache_outcome-panics config now key raw upstream panics s e past = cc e
  cache_outcome-panics config now key raw upstream (returns (err x)) s e past = cc e
  cache_outcome-panics config now key raw upstream (returns (ok (rs, up))) s e past =
      rw (past_end moka.max_instant config now (served_records config rs) past) refl

  -- A resolution that succeeds at an instant from which the configured grace alone reaches past the
  -- last instant panics: the query has no response and no log entry, and nothing is cached.
  pub resolve_and_serve-panics :
      (h : Handler) (clock : Clock) (request : Request) (query : QueryContext) (s : Server dns moka)
      (raw : List Record) (upstream : String)
      → (dns.resolve s.resolver s.stats query.name query.qtype).0 ≡ returns (ok (raw, upstream))
      → moka.max_instant < clock.resolved + from_secs h.config.cache.grace_period_sec
      → resolve_and_serve dns moka names h clock request query s ≡ (
        panics,
        record s {
          resolver = (dns.resolve s.resolver s.stats query.name query.qtype).1;
          stats = (dns.resolve s.resolver s.stats query.name query.qtype).2;
        },
      )
  unfolding resolve_and_serve resolve_and_cache
  resolve_and_serve-panics h clock request query s raw upstream answered past =
      let r = dns.resolve s.resolver s.stats query.name query.qtype in
      ap
        (λ (p : Outcome (Result Answer) × Server dns moka).
          resume_with p.0 p.1 (serve_answer dns moka names h clock request query))
        (cache_outcome-panics h.config clock.resolved (query.name, query.qtype) raw upstream r.0
          (record s { resolver = r.1; stats = r.2 }) answered past)
