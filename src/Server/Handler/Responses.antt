-- ===== src/Server/Handler/Responses.antt =====
-- How `DnsHandler` of src/server/dns_request_handler.rs sends and logs a response.
use ad_nope.Prelude.{
  ℕ, false, List, [], ◌∷◌, ◌++◌, Option, none, some, returns, panics, string_eq, if◌then◌else◌,
}
use ad_nope.Dns.{Record, type_eq}
use ad_nope.Stats.{inc_blocked_by_source, inc_client_block, inc_domain_block}
use ad_nope.Logger
use ad_nope.Logger.{Channel, QueryLogAction, QueryLogEntry, blocked, cached, forwarded, local}
use ad_nope.Server.Action.{Action, ◌>>=◌}
use ad_nope.Server.Interfaces.{DnsResolver, CacheLibrary, NameParser}
use ad_nope.Server.Cache.{ResponseCode, no_error, nx_domain, Response, Server}
use ad_nope.Server.Query.{
  QueryContext, LogContext, Request, Clock, Handler, blocked_record, blocked_log, log_entry,
}

module _ (dns : DnsResolver) (moka : CacheLibrary) (names : NameParser) where
  -- `send_response(response).await.expect(..)`
  unfoldable pub send_response : Request → Response → Action (Server dns moka) Response
  send_response request response s =
      if request.deliverable
      then (returns response, record s { sent = s.sent ++ (response ∷ []) })
      else (panics, s)

  unfoldable pub log_query :
      Handler → Clock → Request → QueryContext → LogContext → Server dns moka → Server dns moka
  unfolding log_entry
  log_query h clock request query log s =
      if h.config.logging.enable
      then record s { logger = Logger.log (log_entry clock request query log) s.logger }
      else s

  -- A response is sent and then logged, as it is written out in each of the handlers.
  unfoldable pub respond :
      Handler
      → Clock
      → Request
      → ResponseCode
      → List Record
      → QueryContext
      → LogContext
      → Action (Server dns moka) Response
  unfolding send_response log_query
  respond h clock request code records query log =
      send_response request (record { code = code; authoritative = false; answers = records })
      >>= λ info s. (returns info, log_query h clock request query log s)

  unfoldable pub serve_records :
      Handler
      → Clock
      → Request
      → List Record
      → QueryContext
      → LogContext
      → Action (Server dns moka) Response
  unfolding respond
  serve_records h clock request records query log =
      respond h clock request no_error records query log

  unfoldable pub count_blocked : Request → QueryContext → ℕ → Server dns moka → Server dns moka
  count_blocked request query source_id s = record s {
    stats =
        inc_domain_block (inc_client_block (inc_blocked_by_source s.stats source_id) request.src)
          query.name;
  }

  -- The end of `serve_blocked`, for the record that was made.
  unfoldable pub respond_blocked :
      Handler
      → Clock
      → Request
      → QueryContext
      → LogContext
      → Option Record
      → Action (Server dns moka) Response
  unfolding serve_records respond
  respond_blocked h clock request query log (some r) =
      serve_records h clock request (r ∷ []) query log
  respond_blocked h clock request query log none = respond h clock request nx_domain [] query log

  unfoldable pub serve_blocked :
      Handler → Clock → Request → QueryContext → ℕ → Action (Server dns moka) Response
  unfolding count_blocked blocked_record respond_blocked
  serve_blocked h clock request query source_id s =
      respond_blocked h clock request query (blocked_log source_id) (blocked_record names query)
        (count_blocked request query source_id s)
