-- ===== src/Server/Blocking.antt =====
-- Queries for listed domains in `handle_request` of src/server/dns_request_handler.rs.
mod Branch
use ad_nope.Prelude.{
  ℕ, Bool, true, ◌-◌, ◌/◌, ◌%◌, ◌≤◌, ◌++◌, get_or, arith, ◌≡◌, refl, ap, ◌∙◌, true, false, ◌&&◌,
  String, List, [], ◌∷◌, Option, none, some, returns, panics, Outcome, if◌then◌else◌, ◌==◌,
  string_eq,
}
use ad_nope.Prelude.HashMap
use ad_nope.Prelude.Case.{make_ascii_lowercase}
use ad_nope.Net.{IpAddr}
use ad_nope.Prelude.Words.{u64_mod}
use ad_nope.Logger
use ad_nope.Logger.{Channel, QueryLogEntry, blocked}
use ad_nope.Dns.{RecordType, Record, a, aaaa, other, address4, address6, type_eq}
use ad_nope.Engine.State.{is_blocking_active, unwrap, active_at}
use ad_nope.Stats.Events.{
  apply, apply_all, client_query, domain_query, blocked_by, client_block, domain_block,
}
use ad_nope.Server.Action.{Action, resume_with}
use ad_nope.Server.Interfaces.{DnsResolver, CacheLibrary, NameParser}
use ad_nope.Server.Cache.{ResponseCode, no_error, nx_domain, Response, Server}
use ad_nope.Server.Query.{
  QueryContext, LogContext, Request, Clock, Handler, get_query_info, ipv6_log, blocked_log,
  blocked_record, without_dot, log_entry,
}
use ad_nope.Server.Handler.{
  check_blocklist, handled, serve_local, handle_local_records, serve_listed, handle_listed,
  handle_blocked_request, serve_query, count_query, count_domain, handle_request, ◌otherwise◌,
  or_return, handle_cached_response, resolve_and_serve,
}
use ad_nope.Server.Handler.Responses.{
  serve_blocked, respond, send_response, log_query, respond_blocked, count_blocked, serve_records,
}
use ad_nope.Stats.Events
use ad_nope.Server.Replies.{context}
use ad_nope.Server.Blocking.Branch.{handle_request-serve_blocked}

-- The answer for a blocked name: the unspecified address of the type that the query asks for, for a
-- minute, and no such domain for any other type.
abbrev pub blocked_answer : NameParser → String → RecordType → Response
blocked_answer names name a = record {
  code = no_error;
  authoritative = false;
  answers =
      record {
        name = get_or (names.from_str name) names.default_name;
        ttl = 60;
        rdata = address4 0;
      }
      ∷ [];
}
blocked_answer names name aaaa = record {
  code = no_error;
  authoritative = false;
  answers =
      record {
        name = get_or (names.from_str name) names.default_name;
        ttl = 60;
        rdata = address6 0;
      }
      ∷ [];
}
blocked_answer names name (other n) = record {
  code = nx_domain;
  authoritative = false;
  answers = [];
}

-- What is logged for a blocked name.
abbrev pub blocked_entry : Clock → IpAddr → String → RecordType → ℕ → QueryLogEntry
blocked_entry clock src name qtype id = record {
  client_ip = src;
  domain = name;
  query_type = qtype;
  action = blocked;
  source_id = some id;
  upstream = none;
  latency_ms = (clock.logged - clock.start) / 1_000_000 % u64_mod;
  ttl_remaining = none;
}

-- No pause is set that ends after the instant `now`.
abbrev pub IsUnpaused : Option ℕ → ℕ → Type 0
IsUnpaused none now = Unit
IsUnpaused (some until) now = until ≤ now

IsUnpaused-active_at : (o : Option ℕ) (now : ℕ) → IsUnpaused o now → active_at o now ≡ true
unfolding active_at
IsUnpaused-active_at none now h = refl
IsUnpaused-active_at (some until) now h = ground arith

module _ (dns : DnsResolver) (moka : CacheLibrary) (names : NameParser) where
  respond-delivered :
      (h : Handler) (clock : Clock) (request : Request) (code : ResponseCode) (rs : List Record)
      (query : QueryContext) (log : LogContext) (s : Server dns moka)
      → request.deliverable ≡ true
      → respond dns moka names h clock request code rs query log s ≡ (
        returns (record { code = code; authoritative = false; answers = rs }),
        log_query dns moka names h clock request query log (record s {
          sent = s.sent ++ (record { code = code; authoritative = false; answers = rs } ∷ []);
        }),
      )
  unfolding respond send_response
  respond-delivered h clock request code rs query log s deliverable = rw deliverable refl

  respond_blocked-delivered :
      (h : Handler) (clock : Clock) (request : Request) (name : String) (qtype : RecordType)
      (start : ℕ) (log : LogContext) (s : Server dns moka)
      → request.deliverable ≡ true
      → respond_blocked dns moka names h clock request
          (record { name = name; qtype = qtype; start = start })
          log
          (blocked_record names (record { name = name; qtype = qtype; start = start }))
          s
        ≡ (
          returns (blocked_answer names name qtype),
          log_query dns moka names h clock request
              (record { name = name; qtype = qtype; start = start })
              log
              (record s { sent = s.sent ++ (blocked_answer names name qtype ∷ []) }),
        )
  unfolding respond_blocked serve_records blocked_record
  respond_blocked-delivered h clock request name a start log s deliverable =
      respond-delivered h clock request _ _ _ log s deliverable
  respond_blocked-delivered h clock request name aaaa start log s deliverable =
      respond-delivered h clock request _ _ _ log s deliverable
  respond_blocked-delivered h clock request name (other n) start log s deliverable =
      respond-delivered h clock request _ _ _ log s deliverable

  if-logger :
      (b : Bool) (s : Server dns moka) (logger : List Channel)
      → (if b then record s { logger = logger } else s)
        ≡ record s { logger = if b then logger else s.logger }
  if-logger true s logger = refl
  if-logger false s logger = refl

  log_query-logged :
      (h : Handler) (clock : Clock) (request : Request) (query : QueryContext) (log : LogContext)
      (s : Server dns moka)
      → log_query dns moka names h clock request query log s ≡ record s {
        logger =
            if h.config.logging.enable
            then Logger.log (log_entry clock request query log) s.logger
            else s.logger;
      }
  unfolding log_query
  log_query-logged h clock request query log s =
      if-logger h.config.logging.enable s (Logger.log (log_entry clock request query log) s.logger)

  -- A request with a query for a name that the blocklist lists with the source `id`, where no pause is
  -- set that lasts, the lock is not poisoned, no local record has the name, the query is not for AAAA
  -- while these are disabled, and a response can be sent: it is answered with the unspecified address
  -- for 60 seconds if it is for A or AAAA, and with no such domain otherwise; exactly that response is
  -- sent; one entry with the source is logged if logging is on; the cache and the resolver are not
  -- touched; and the query counts once for the total, its client, its domain, its source, and as blocked
  -- for its client and its domain.
  pub handle_request-listed :
      (h : Handler) (clock : Clock) (request : Request) (name : String) (qtype : RecordType)
      (s : Server dns moka) (id : ℕ)
      → request.query ≡ some (name, qtype)
      → request.deliverable ≡ true
      → (h.config.disable_ipv6 && qtype == aaaa) ≡ false
      → HashMap.get (make_ascii_lowercase (without_dot name)) h.local_records ≡ none
      → s.app_state.poisoned ≡ false
      → IsUnpaused s.app_state.blocking_paused_until clock.pause_check
      → s.blocklist (make_ascii_lowercase (without_dot name)) ≡ some id
      → handle_request dns moka names h clock request s ≡ (
        returns (blocked_answer names (make_ascii_lowercase (without_dot name)) qtype),
        record s {
          sent =
              s.sent ++ (blocked_answer names (make_ascii_lowercase (without_dot name)) qtype ∷ []);
          logger =
              if h.config.logging.enable
              then Logger.log
                  (blocked_entry clock request.src
                    (make_ascii_lowercase (without_dot name))
                    qtype
                    id)
                  s.logger
              else s.logger;
          stats = apply_all s.stats (
              Events.query
              ∷ client_query request.src
              ∷ domain_query (make_ascii_lowercase (without_dot name))
              ∷ blocked_by id
              ∷ client_block request.src
              ∷ domain_block (make_ascii_lowercase (without_dot name))
              ∷ []);
        },
      )
  unfolding serve_blocked count_blocked apply_all apply count_query count_domain log_query log_entry
  handle_request-listed h clock request name qtype s id has_query deliverable unfiltered unlocal
        safe unpaused listed =
      let key = make_ascii_lowercase (without_dot name) in
      handle_request-serve_blocked dns moka names h clock request name qtype s id has_query
        unfiltered unlocal safe
        (IsUnpaused-active_at s.app_state.blocking_paused_until clock.pause_check unpaused) listed
      ∙ respond_blocked-delivered h clock request key qtype clock.start (blocked_log id) _
          deliverable
      ∙ ap (λ t. (returns (blocked_answer names key qtype), t))
          (log_query-logged h clock request
            (record { name = key; qtype = qtype; start = clock.start }) (blocked_log id) _)
