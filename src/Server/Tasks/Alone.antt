-- ===== src/Server/Tasks/Alone.antt =====
-- A task of src/server/dns_request_handler.rs that no other interrupts.
use ad_nope.Prelude.{
  ℕ, ◌≡◌, ◌↔◌, refl, sym, Bool, true, false, ◌&&◌, List, [], ◌∷◌, Option, none, some, Outcome,
  returns, panics, ◌==◌, string_eq, if◌then◌else◌,
}
use mathlib.Core.Path.{subst}
use ad_nope.Prelude.HashMap
use ad_nope.Dns.{aaaa, Record, type_eq}
use ad_nope.Server.Action.{Action, resume_with}
use ad_nope.Server.Interfaces.{DnsResolver, CacheLibrary, NameParser}
use ad_nope.Server.Cache.{nx_domain, Response, Server}
use ad_nope.Server.Query.{
  QueryContext, LogContext, Request, Clock, Handler, blocked_record, answers_query, local_log,
  blocked_log, ipv6_log,
}
use ad_nope.Server.Handler.{
  serve_local, handle_local_records, serve_listed, handle_listed, handle_blocked_request,
  handle_cached_response, resolve_and_serve, or_return, serve_query, count_domain, handle_request,
}
use ad_nope.Server.Handler.Responses.{serve_records, respond_blocked, serve_blocked}
use ad_nope.Server.Tasks.{
  Pc, received, named, unanswered, unblocked, after_info, after_local, after_pause, blocked_with,
  after_blocklist, advance,
}
use ad_nope.Server.Tasks.Ends.{
  Ends, at_end, at_panic, more, respond-Ends, serve_records-Ends, handled-Ends, after_cache-Ends,
}

module _ (dns : DnsResolver) (moka : CacheLibrary) (names : NameParser) where
  module _ (h : Handler) (clock : Clock) (request : Request) where
    module _ (query : QueryContext) where
      -- The cache, then the resolver.
      abbrev looked_up : Action (Server dns moka) Response
      looked_up s =
          resume_with (handle_cached_response dns moka names h clock request query s).0
            (handle_cached_response dns moka names h clock request query s).1
            (λ r.
              or_return dns moka names r (resolve_and_serve dns moka names h clock request query))

      looked_up-Ends :
          (s : Server dns moka)
          → Ends dns moka names h clock request (unblocked query, s) (looked_up s)
      unfolding advance handle_cached_response
      looked_up-Ends s = more (after_cache-Ends dns moka names h clock request query _ _)

      blocked_with-Ends :
          (log : LogContext) (record_made : Option Record) (s : Server dns moka)
          → Ends dns moka names h clock request
              (blocked_with dns moka names h clock request query log record_made, s)
              (respond_blocked dns moka names h clock request query log record_made s)
      unfolding respond_blocked
      blocked_with-Ends log (some r) s =
          serve_records-Ends dns moka names h clock request query (r ∷ []) log s
      blocked_with-Ends log none s =
          respond-Ends dns moka names h clock request query nx_domain [] log s

      after_blocklist-Ends :
          (listed : Option ℕ) (s : Server dns moka)
          → Ends dns moka names h clock request
              (after_blocklist dns moka names h clock request query listed s)
              (resume_with
                (serve_listed dns moka names h clock request query listed s).0
                (serve_listed dns moka names h clock request query listed s).1
                (λ r. or_return dns moka names r looked_up))
      unfolding serve_listed serve_blocked
      after_blocklist-Ends none s = looked_up-Ends s
      after_blocklist-Ends (some source_id) s =
          handled-Ends dns moka names h clock request query _
            (serve_blocked dns moka names h clock request query source_id) _ s
            (blocked_with-Ends (blocked_log source_id) (blocked_record names query) _)

      after_pause-Ends :
          (o : Outcome Bool) (s : Server dns moka)
          → Ends dns moka names h clock request
              (after_pause dns moka names h clock request query o, s)
              (resume_with
                (resume_with o s (handle_listed dns moka names h clock request query)).0
                (resume_with o s (handle_listed dns moka names h clock request query)).1
                (λ r. or_return dns moka names r looked_up))
      unfolding advance handle_listed
      after_pause-Ends panics s = at_panic
      after_pause-Ends (returns false) s = looked_up-Ends s
      after_pause-Ends (returns true) s = more (after_blocklist-Ends _ s)

      -- The blocklist, then the cache and the resolver.
      abbrev unanswered_rest : Action (Server dns moka) Response
      unanswered_rest s =
          resume_with (handle_blocked_request dns moka names h clock request query s).0
            (handle_blocked_request dns moka names h clock request query s).1
            (λ r. or_return dns moka names r looked_up)

      unanswered-Ends :
          (s : Server dns moka)
          → Ends dns moka names h clock request (unanswered query, s) (unanswered_rest s)
      unfolding advance handle_blocked_request
      unanswered-Ends s = more (after_pause-Ends _ s)

      if-Ends :
          (b : Bool) (p q : Pc) (m n : Action (Server dns moka) (Option Response))
          (rest : Action (Server dns moka) Response) (s : Server dns moka)
          → Ends dns moka names h clock request
              (p, s)
              (resume_with (m s).0 (m s).1 (λ r. or_return dns moka names r rest))
          → Ends dns moka names h clock request
              (q, s)
              (resume_with (n s).0 (n s).1 (λ r. or_return dns moka names r rest))
          → Ends dns moka names h clock request
              (if b then p else q, s)
              (resume_with
                ((if b then m else n) s).0
                ((if b then m else n) s).1
                (λ r. or_return dns moka names r rest))
      if-Ends true p q m n rest s a b = a
      if-Ends false p q m n rest s a b = b

      after_local-Ends :
          (found : Option (List Record)) (s : Server dns moka)
          → Ends dns moka names h clock request
              (after_local dns moka names h clock request query found, s)
              (resume_with
                (serve_local dns moka names h clock request query found s).0
                (serve_local dns moka names h clock request query found s).1
                (λ r. or_return dns moka names r unanswered_rest))
      unfolding serve_local
      after_local-Ends none s = unanswered-Ends s
      after_local-Ends (some records) s =
          if-Ends (answers_query query.qtype records) _ _ _ _ unanswered_rest s
            (handled-Ends dns moka names h clock request query _
              (serve_records dns moka names h clock request records query local_log) _ s
              (serve_records-Ends dns moka names h clock request query records local_log s))
            (unanswered-Ends s)

      named-Ends :
          (b : Bool) (s : Server dns moka) (p q : Pc) (m n : Action (Server dns moka) Response)
          → Ends dns moka names h clock request (p, s) (m s)
          → Ends dns moka names h clock request (q, s) (n s)
          → Ends dns moka names h clock request (if b then p else q, s) ((if b then m else n) s)
      named-Ends true s p q m n a b = a
      named-Ends false s p q m n a b = b

      serve_query-Ends :
          (s : Server dns moka)
          → Ends dns moka names h clock request
              (named query, s)
              (serve_query dns moka names h clock request query s)
      unfolding advance serve_query handle_local_records
      serve_query-Ends s = more (
          named-Ends (h.config.disable_ipv6 && query.qtype == aaaa) s _ _ _ _
            (serve_records-Ends dns moka names h clock request query [] ipv6_log s)
            (after_local-Ends (HashMap.get query.name h.local_records) s))

    after_info-Ends :
        (o : Outcome QueryContext) (s : Server dns moka)
        → Ends dns moka names h clock request (after_info dns moka names h clock request o s) (
            resume_with o s (λ query t.
              serve_query dns moka names h clock request query
                (count_domain dns moka names query t)))
    after_info-Ends panics s = at_panic
    after_info-Ends (returns query) s = serve_query-Ends query _

    handle_request-Ends :
        (s : Server dns moka)
        → Ends dns moka names h clock request
            (received, s)
            (handle_request dns moka names h clock request s)
    unfolding advance handle_request
    handle_request-Ends s = more (after_info-Ends _ _)

    Ends-unique :
        (p : Pc × Server dns moka) (o o' : Outcome Response × Server dns moka)
        → Ends dns moka names h clock request p o
        → Ends dns moka names h clock request p o'
        → o ≡ o'
    unfolding advance
    Ends-unique p o o' at_end at_end = refl
    Ends-unique p o o' at_end (more f) = Ends-unique p o o' at_end f
    Ends-unique p o o' at_panic at_panic = refl
    Ends-unique p o o' at_panic (more f) = Ends-unique p o o' at_panic f
    Ends-unique p o o' (more e) at_end = Ends-unique p o o' e at_end
    Ends-unique p o o' (more e) at_panic = Ends-unique p o o' e at_panic
    Ends-unique p o o' (more e) (more f) = Ends-unique _ o o' e f

    -- The steps of a task that no other interrupts come to their end, and to no other outcome and state
    -- than `handle_request` gives, whether it answers or panics.
    pub Ends-handle_request :
        (s : Server dns moka) (o : Outcome Response × Server dns moka)
        → Ends dns moka names h clock request (received, s) o
          ↔ (o ≡ handle_request dns moka names h clock request s)
    Ends-handle_request s o = (
      λ e. Ends-unique (received, s) o _ e (handle_request-Ends s),
      λ e.
          subst (λ x. Ends dns moka names h clock request (received, s) x) (sym e)
            (handle_request-Ends s),
    )
