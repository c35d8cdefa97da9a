-- ===== src/Server/Filter/Decided.antt =====
-- The queries that src/server/dns_request_handler.rs does not answer for their type alone send no AAAA
-- record when they are disabled.
use ad_nope.Prelude.{
  ℕ, ◌≡◌, refl, Bool, true, false, String, List, [], Option, none, some, inl, inr, returns,
  Bool-cases, ◌==◌, string_eq, pair_eq,
}
use ad_nope.Prelude.HashMap
use ad_nope.Prelude.HashMap.{HashMap}
use ad_nope.Dns.{aaaa, RData, address4, address6, opaque, Record, type_eq}
use ad_nope.Engine.State.{is_blocking_active}
use ad_nope.Server.Action.{Action}
use ad_nope.Server.Interfaces.{DnsResolver, CacheLibrary, NameParser}
use ad_nope.Server.Cache.{nx_domain, Response, Server}
use ad_nope.Server.Query.{
  QueryContext, LogContext, Request, Clock, Handler, blocked_data, blocked_record, answers_query,
  local_log, blocked_log,
}
use ad_nope.Server.Handler.{
  check_blocklist, handled, serve_local, handle_local_records, serve_listed, handle_listed,
  handle_blocked_request, handle_cached_response, resolve_and_serve, ◌otherwise◌,
}
use ad_nope.Server.Handler.Responses.{serve_records, count_blocked, respond_blocked, serve_blocked}
use ad_nope.Server.Filter.{IsSingle, answers_query-HasNoAaaa, blocked_answer, not-blocked6}
use ad_nope.Server.Filter.Cached.{IsFiltered, choice-IsFiltered, bind-IsFiltered}
use ad_nope.Server.Filter.Handlers.{
  handled-IsFiltered, serve_records-IsFiltered, respond-IsFiltered, count_blocked-IsFiltered,
  otherwise-IsFiltered, handle_cached_response-IsFiltered, resolve_and_serve-IsFiltered,
}

module _ (dns : DnsResolver) (moka : CacheLibrary) (names : NameParser) where
  module _ (h : Handler) (filtering : h.config.disable_ipv6 ≡ true) where
    module _ (clock : Clock) (request : Request) (query : QueryContext) where
      abbrev pub decided : Action (Server dns moka) Response
      decided =
          ◌otherwise◌ dns moka names (handle_local_records dns moka names h clock request query) (
            ◌otherwise◌ dns moka names (handle_blocked_request dns moka names h clock request query)
              (◌otherwise◌ dns moka names
                (handle_cached_response dns moka names h clock request query)
                (resolve_and_serve dns moka names h clock request query)))

      -- The query is not for AAAA, and the local records are single.
      module _ (ne : (query.qtype == aaaa) ≡ false)
          (single : (k : String) → IsSingle (HashMap.get k h.local_records)) where
        serve_local-IsFiltered :
            (found : Option (List Record)) (s : Server dns moka)
            → IsSingle found
            → IsFiltered dns moka names s
            → IsFiltered dns moka names (serve_local dns moka names h clock request query found s).1
        unfolding serve_local
        serve_local-IsFiltered none s one i = i
        serve_local-IsFiltered (some rs) s one i =
            elim (Bool-cases (answers_query query.qtype rs)) [
              | inl yes_ ↦
                  choice-IsFiltered dns moka names h filtering (answers_query query.qtype rs) served
                    pure_none s
                    (handled-IsFiltered dns moka names h filtering clock request query
                      (serve_records dns moka names h clock request rs query local_log) s
                      (serve_records-IsFiltered dns moka names h filtering clock request query rs
                        local_log s (answers_query-HasNoAaaa query.qtype rs ne one yes_) i))
                    i
              | inr no_ ↦ rw no_ i
            ]
          where
            served : Action (Server dns moka) (Option Response)
            served =
                handled dns moka names
                  (serve_records dns moka names h clock request rs query local_log)

            pure_none : Action (Server dns moka) (Option Response)
            pure_none t = (returns none, t)

        -- The record of a blocked query is of the type of the query.
        respond_blocked-IsFiltered :
            (o : Option RData) (log : LogContext) (s : Server dns moka)
            → o ≡ blocked_data query.qtype
            → IsFiltered dns moka names s
            → IsFiltered dns moka names
                (respond_blocked dns moka names h clock request query log
                  (blocked_answer names query o)
                  s).1
        unfolding respond_blocked
        respond_blocked-IsFiltered none log s e i =
            respond-IsFiltered dns moka names h filtering clock request query nx_domain [] log s tt
              i
        respond_blocked-IsFiltered (some (address4 n)) log s e i =
            serve_records-IsFiltered dns moka names h filtering clock request query _ log s
              (refl, tt) i
        respond_blocked-IsFiltered (some (address6 n)) log s e i =
            absurd (not-blocked6 query.qtype n e ne)
        respond_blocked-IsFiltered (some (opaque c n)) log s e i =
            serve_records-IsFiltered dns moka names h filtering clock request query _ log s
              (refl, tt) i

        serve_listed-IsFiltered :
            (o : Option ℕ) (s : Server dns moka)
            → IsFiltered dns moka names s
            → IsFiltered dns moka names (serve_listed dns moka names h clock request query o s).1
        unfolding serve_listed serve_blocked blocked_record
        serve_listed-IsFiltered none s i = i
        serve_listed-IsFiltered (some id) s i =
            handled-IsFiltered dns moka names h filtering clock request query
              (serve_blocked dns moka names h clock request query id) s
              (respond_blocked-IsFiltered (blocked_data query.qtype) (blocked_log id)
                (count_blocked dns moka names request query id s) refl
                (count_blocked-IsFiltered dns moka names h filtering clock request query id s i))

        handle_listed-IsFiltered :
            (active : Bool) (s : Server dns moka)
            → IsFiltered dns moka names s
            → IsFiltered dns moka names
                (handle_listed dns moka names h clock request query active s).1
        unfolding handle_listed
        handle_listed-IsFiltered false s i = i
        handle_listed-IsFiltered true s i =
            serve_listed-IsFiltered (check_blocklist dns moka names query.name s) s i

        pub serve_decided-IsFiltered :
            (s : Server dns moka)
            → IsFiltered dns moka names s
            → IsFiltered dns moka names (decided s).1
        unfolding handle_local_records handle_blocked_request
        serve_decided-IsFiltered s i =
            otherwise-IsFiltered dns moka names h filtering clock request query
              (handle_local_records dns moka names h clock request query) _ s
              (serve_local-IsFiltered (HashMap.get query.name h.local_records) s (single query.name)
                i)
              (λ t j.
                otherwise-IsFiltered dns moka names h filtering clock request query
                  (handle_blocked_request dns moka names h clock request query) _ t
                  (bind-IsFiltered dns moka names h filtering
                    (is_blocking_active t.app_state clock.pause_check) t
                    (handle_listed dns moka names h clock request query) j
                    (λ active. handle_listed-IsFiltered active t j))
                  (λ u k.
                    otherwise-IsFiltered dns moka names h filtering clock request query
                      (handle_cached_response dns moka names h clock request query)
                      (resolve_and_serve dns moka names h clock request query) u
                      (handle_cached_response-IsFiltered dns moka names h filtering clock request
                        query u k)
                      (resolve_and_serve-IsFiltered dns moka names h filtering clock request
                        query)))
