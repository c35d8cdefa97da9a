-- ===== src/Server/Blocking/Branch.antt =====
-- The branch of `handle_request` of src/server/dns_request_handler.rs that a query for a listed domain
-- takes.
use ad_nope.Prelude.{
  ℕ, ◌≡◌, refl, ap, ◌∙◌, true, false, ◌&&◌, String, [], none, some, returns, panics, Outcome,
  if◌then◌else◌, ◌==◌, string_eq,
}
use ad_nope.Prelude.HashMap
use ad_nope.Prelude.Case.{make_ascii_lowercase}
use ad_nope.Dns.{RecordType, aaaa, type_eq}
use ad_nope.Engine.State.{is_blocking_active, unwrap, active_at}
use ad_nope.Server.Action.{Action, resume_with}
use ad_nope.Server.Interfaces.{DnsResolver, CacheLibrary, NameParser}
use ad_nope.Server.Cache.{Response, Server}
use ad_nope.Server.Query.{
  QueryContext, Request, Clock, Handler, get_query_info, ipv6_log, without_dot,
}
use ad_nope.Server.Handler.{
  check_blocklist, handled, serve_local, handle_local_records, serve_listed, handle_listed,
  handle_blocked_request, serve_query, count_query, count_domain, handle_request, ◌otherwise◌,
  or_return, handle_cached_response, resolve_and_serve,
}
use ad_nope.Server.Handler.Responses.{serve_blocked, serve_records}
use ad_nope.Server.Replies.{context}

module _ (dns : DnsResolver) (moka : CacheLibrary) (names : NameParser) where
  module _ (h : Handler) (clock : Clock) (request : Request) (query : QueryContext) where
    handle_local_records-none :
        (s : Server dns moka)
        → HashMap.get query.name h.local_records ≡ none
        → handle_local_records dns moka names h clock request query s ≡ (returns none, s)
    unfolding handle_local_records serve_local
    handle_local_records-none s e = ap (λ o. serve_local dns moka names h clock request query o s) e

    handle_blocked_request-listed :
        (s : Server dns moka) (id : ℕ)
        → s.app_state.poisoned ≡ false
        → active_at s.app_state.blocking_paused_until clock.pause_check ≡ true
        → s.blocklist query.name ≡ some id
        → handle_blocked_request dns moka names h clock request query s
          ≡ handled dns moka names (serve_blocked dns moka names h clock request query id) s
    unfolding handle_blocked_request is_blocking_active unwrap handle_listed serve_listed
        check_blocklist
    handle_blocked_request-listed s id safe active listed =
        let e : is_blocking_active s.app_state clock.pause_check ≡ returns true =
          rw (safe, active) refl in
        ap (λ o. resume_with o s (handle_listed dns moka names h clock request query)) e
        ∙ ap (λ o. serve_listed dns moka names h clock request query o s) listed

    handled-otherwise :
        (m n : Action (Server dns moka) Response) (o : Outcome Response) (t : Server dns moka)
        (s : Server dns moka)
        → m s ≡ (o, t)
        → ◌otherwise◌ dns moka names (handled dns moka names m) n s ≡ (o, t)
    handled-otherwise m n (returns r) t s e = rw e refl
    handled-otherwise m n panics t s e = rw e refl

    abbrev unlisted_rest : Action (Server dns moka) Response
    unlisted_rest =
        ◌otherwise◌ dns moka names (handle_cached_response dns moka names h clock request query)
          (resolve_and_serve dns moka names h clock request query)

    abbrev unlocal_rest : Action (Server dns moka) Response
    unlocal_rest =
        ◌otherwise◌ dns moka names (handle_blocked_request dns moka names h clock request query)
          unlisted_rest

    serve_query-listed :
        (s : Server dns moka) (id : ℕ)
        → (h.config.disable_ipv6 && query.qtype == aaaa) ≡ false
        → HashMap.get query.name h.local_records ≡ none
        → s.app_state.poisoned ≡ false
        → active_at s.app_state.blocking_paused_until clock.pause_check ≡ true
        → s.blocklist query.name ≡ some id
        → serve_query dns moka names h clock request query s
          ≡ serve_blocked dns moka names h clock request query id s
    unfolding serve_query
    serve_query-listed s id unfiltered unlocal safe active listed =
        let serve = serve_blocked dns moka names h clock request query id in
        ap
          (λ b.
            (if b
                then serve_records dns moka names h clock request [] query ipv6_log
                else ◌otherwise◌ dns moka names
                    (handle_local_records dns moka names h clock request query) unlocal_rest)
              s)
          unfiltered
        ∙ ap (λ p. resume_with p.0 p.1 (λ r. or_return dns moka names r unlocal_rest))
            (handle_local_records-none s unlocal)
        ∙ ap (λ p. resume_with p.0 p.1 (λ r. or_return dns moka names r unlisted_rest))
            (handle_blocked_request-listed s id safe active listed)
        ∙ handled-otherwise serve unlisted_rest (serve s).0 (serve s).1 s refl

  pub handle_request-serve_blocked :
      (h : Handler) (clock : Clock) (request : Request) (name : String) (qtype : RecordType)
      (s : Server dns moka) (id : ℕ)
      → request.query ≡ some (name, qtype)
      → (h.config.disable_ipv6 && qtype == aaaa) ≡ false
      → HashMap.get (make_ascii_lowercase (without_dot name)) h.local_records ≡ none
      → s.app_state.poisoned ≡ false
      → active_at s.app_state.blocking_paused_until clock.pause_check ≡ true
      → s.blocklist (make_ascii_lowercase (without_dot name)) ≡ some id
      → handle_request dns moka names h clock request s
        ≡ serve_blocked dns moka names h clock request
            (context dns moka names clock name qtype)
            id
            (count_domain dns moka names
              (context dns moka names clock name qtype)
              (count_query dns moka names request s))
  unfolding handle_request get_query_info count_query count_domain
  handle_request-serve_blocked h clock request name qtype s id has_query unfiltered unlocal safe
        active listed =
      let query = context dns moka names clock name qtype in
      let e : get_query_info clock request ≡ returns query = rw has_query refl in
      let counted = count_query dns moka names request s in
      ap
        (λ o. resume_with o counted (λ (q : QueryContext) (t : Server dns moka).
          serve_query dns moka names h clock request q (count_domain dns moka names q t)))
        e
      ∙ serve_query-listed h clock request query (count_domain dns moka names query counted) id
          unfiltered unlocal safe active listed
