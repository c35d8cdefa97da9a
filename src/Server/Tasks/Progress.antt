-- ===== src/Server/Tasks/Progress.antt =====
-- Every request of src/server/dns_request_handler.rs gets its response, in whatever order the tasks run.
use ad_nope.Prelude.{
  ℕ, suc, ◌≤◌, ◌≡◌, refl, Bool, true, false, ◌&&◌, List, String, Option, none, some, Outcome,
  returns, panics, Result, ok, err, ◌==◌, string_eq, if◌then◌else◌, arith, nat_eq,
}
use ad_nope.Prelude.HashMap
use ad_nope.Dns.{RecordType, aaaa, Record, type_eq}
use ad_nope.Engine.State
use ad_nope.Engine.State.{AppState, is_blocking_active, unwrap}
use ad_nope.Resolver.{Answer}
use ad_nope.Server.Interfaces.{DnsResolver, CacheLibrary, NameParser}
use ad_nope.Server.Cache.{Response, Server}
use mathlib.Core.Path.{subst}
use ad_nope.Server.Caching.{cache_answer-returns}
use ad_nope.Server.Expiry.{HasU32, latest_end, HasU32-Fits}
use ad_nope.Server.Query.{
  QueryContext, LogContext, Request, Clock, Handler, get_query_info, blocked_record, answers_query,
  without_dot,
}
use ad_nope.Prelude.Case.{make_ascii_lowercase}
use ad_nope.Stats.{StatsCollector}
use ad_nope.Server.Tasks.{
  Pc, received, named, unanswered, active, unblocked, missed, resolved, answering, sent, done,
  panicked, after_info, after_local, after_pause, blocked_with, after_blocklist, after_cache,
  after_resolver, answered_with, sending, advance,
}

-- How many steps a task has at most before its end.
abbrev pub steps_left : Pc → ℕ
steps_left received = 9
steps_left (named query) = 8
steps_left (unanswered query) = 7
steps_left (active query) = 6
steps_left (unblocked query) = 5
steps_left (missed query) = 4
steps_left (resolved query r) = 3
steps_left (answering query code records log) = 2
steps_left (sent query log info) = 1
steps_left (done info) = 0
steps_left panicked = 0

abbrev pub is_live : Pc → Bool
is_live panicked = false
is_live _ = true

-- What the resolver has answered.
abbrev pub HasAnswer : Pc → Type 0
HasAnswer (resolved query r) = HasU32 r
HasAnswer _ = Unit

-- The task has not panicked, and has at most so many steps left.
abbrev pub IsLive : ℕ → Pc → Type 0
IsLive n pc = (is_live pc ≡ true) × (steps_left pc ≤ n) × HasAnswer pc

weaken : (m n : ℕ) (pc : Pc) → m ≤ n → IsLive m pc → IsLive n pc
weaken m n pc le (live, few, answer) = (live, omega arith, answer)

pub ended : (pc : Pc) → IsLive 0 pc → (info : Response) × (pc ≡ done info)
ended (done info) i = (info, refl)
ended received (live, few, answer) = absurd (omega arith)
ended (named query) (live, few, answer) = absurd (omega arith)
ended (unanswered query) (live, few, answer) = absurd (omega arith)
ended (active query) (live, few, answer) = absurd (omega arith)
ended (unblocked query) (live, few, answer) = absurd (omega arith)
ended (missed query) (live, few, answer) = absurd (omega arith)
ended (resolved query r) (live, few, answer) = absurd (omega arith)
ended (answering query code records log) (live, few, answer) = absurd (omega arith)
ended (sent query log info) (live, few, answer) = absurd (omega arith)
ended panicked (live, few, answer) = cc live

unpoisoned :
    {dns : DnsResolver} {moka : CacheLibrary} (s : Server dns moka) (t : ℕ)
    → s.app_state.poisoned ≡ false
    → is_blocking_active s.app_state t
      ≡ returns (State.active_at s.app_state.blocking_paused_until t)
unfolding is_blocking_active unwrap
unpoisoned s t safe = ground arith

module _ (dns : DnsResolver) (moka : CacheLibrary) (names : NameParser) where
  module _ (h : Handler) (clock : Clock) (request : Request) where
    if-IsLive :
        (n : ℕ) (b : Bool) (p q : Pc) → IsLive n p → IsLive n q → IsLive n (if b then p else q)
    if-IsLive n true p q a b = a
    if-IsLive n false p q a b = b

    after_info-IsLive :
        (o : Outcome QueryContext) (query : QueryContext) (s : Server dns moka)
        → o ≡ returns query
        → IsLive 8 (after_info dns moka names h clock request o s).0
    after_info-IsLive panics query s e = cc e
    after_info-IsLive (returns q) query s e = (refl, omega arith, tt)

    module _ (query : QueryContext) where
      after_local-IsLive :
          (found : Option (List Record))
          → IsLive 7 (after_local dns moka names h clock request query found)
      after_local-IsLive none = (refl, omega arith, tt)
      after_local-IsLive (some records) =
          if-IsLive 7 (answers_query query.qtype records) _ _ (refl, omega arith, tt)
            (refl, omega arith, tt)

      after_pause-IsLive :
          (o : Outcome Bool) (b : Bool)
          → o ≡ returns b
          → IsLive 6 (after_pause dns moka names h clock request query o)
      after_pause-IsLive panics b e = cc e
      after_pause-IsLive (returns true) b e = (refl, omega arith, tt)
      after_pause-IsLive (returns false) b e = (refl, omega arith, tt)

      blocked_with-IsLive :
          (log : LogContext) (made : Option Record)
          → IsLive 2 (blocked_with dns moka names h clock request query log made)
      blocked_with-IsLive log none = (refl, omega arith, tt)
      blocked_with-IsLive log (some r) = (refl, omega arith, tt)

      after_blocklist-IsLive :
          (listed : Option ℕ) (s : Server dns moka)
          → IsLive 5 (after_blocklist dns moka names h clock request query listed s).0
      after_blocklist-IsLive none s = (refl, omega arith, tt)
      after_blocklist-IsLive (some source_id) s =
          weaken 2 5 _ (omega arith) (blocked_with-IsLive _ (blocked_record names query))

      after_cache-IsLive :
          (found : Option (List Record × Bool × Option ℕ)) (s : Server dns moka)
          → IsLive 4 (after_cache dns moka names h clock request query found s).0
      after_cache-IsLive none s = (refl, omega arith, tt)
      after_cache-IsLive (some (records, is_stale, ttl)) s = (refl, omega arith, tt)

      same : (r q : Result Answer) → returns q ≡ returns r → r ≡ q
      same r q e = cc e

      after_resolver-IsLive :
          (o : Outcome (Result Answer)) (r : Result Answer)
          → o ≡ returns r
          → HasU32 r
          → IsLive 3 (after_resolver dns moka names h clock request query o)
      after_resolver-IsLive panics r e words = cc e
      after_resolver-IsLive (returns q) r e words =
          (refl, omega arith, subst HasU32 (same r q e) words)

      answered_with-IsLive :
          (o : Outcome (Result Answer)) (r : Result Answer)
          → o ≡ returns r
          → IsLive 2 (answered_with dns moka names h clock request query o)
      answered_with-IsLive panics r e = cc e
      answered_with-IsLive (returns (ok (records, upstream))) r e = (refl, omega arith, tt)
      answered_with-IsLive (returns (err x)) r e = (refl, omega arith, tt)

      sending-IsLive :
          (deliverable : Bool) (log : LogContext) (info : Response) (s : Server dns moka)
          → deliverable ≡ true
          → IsLive 1 (sending dns moka names h clock request deliverable query log info s).0
      sending-IsLive true log info s e = (refl, omega arith, tt)
      sending-IsLive false log info s e = cc e

  -- The resolver returns, with times to live of 32 bits, and the last instant leaves room for them.
  module _
      (responsive : (state : dns.State) (stats : StatsCollector) (name : String)
          (qtype : RecordType)
        → (r : Result Answer) × ((dns.resolve state stats name qtype).0 ≡ returns r) × HasU32 r)
      (h : Handler) (clock : Clock) (request : Request) (name : String) (qtype : RecordType)
      (has_query : request.query ≡ some (name, qtype)) (deliverable : request.deliverable ≡ true)
      (room : latest_end h.config clock.resolved ≤ moka.max_instant) where
    asked : (q : QueryContext) × (get_query_info clock request ≡ returns q)
    unfolding get_query_info
    asked = (
      record { name = make_ascii_lowercase (without_dot name); qtype = qtype; start = clock.start },
      rw has_query refl,
    )

    pub advance-IsLive :
        (pc : Pc) (n : ℕ) (s : Server dns moka)
        → s.app_state.poisoned ≡ false
        → IsLive (suc n) pc
        → IsLive n (advance dns moka names h clock request pc s).0
    unfolding advance
    advance-IsLive received n s safe (live, few, answer) =
        weaken 8 n _ (omega arith)
          (after_info-IsLive h clock request (get_query_info clock request) asked.0 _ asked.1)
    advance-IsLive (named query) n s safe (live, few, answer) = weaken 7 n _ (omega arith) (
        if-IsLive h clock request 7 (h.config.disable_ipv6 && query.qtype == aaaa) _ _
          (refl, omega arith, tt)
          (after_local-IsLive h clock request query (HashMap.get query.name h.local_records)))
    advance-IsLive (unanswered query) n s safe (live, few, answer) =
        weaken 6 n _ (omega arith)
          (after_pause-IsLive h clock request query _ _ (unpoisoned s clock.pause_check safe))
    advance-IsLive (active query) n s safe (live, few, answer) =
        weaken 5 n _ (omega arith) (after_blocklist-IsLive h clock request query _ s)
    advance-IsLive (unblocked query) n s safe (live, few, answer) =
        weaken 4 n _ (omega arith) (after_cache-IsLive h clock request query _ _)
    advance-IsLive (missed query) n s safe (live, few, answer) =
        let (r, e, words) = responsive s.resolver s.stats query.name query.qtype in
        weaken 3 n _ (omega arith) (after_resolver-IsLive h clock request query _ r e words)
    advance-IsLive (resolved query r) n s safe (live, few, answer) =
        let (r', e) =
          cache_answer-returns dns moka h.config clock.resolved (query.name, query.qtype) r s
            (HasU32-Fits dns moka h.config clock.resolved r answer room) in
        weaken 2 n _ (omega arith) (answered_with-IsLive h clock request query _ r' e)
    advance-IsLive (answering query code records log) n s safe (live, few, answer) =
        weaken 1 n _ (omega arith)
          (sending-IsLive h clock request query request.deliverable log _ s deliverable)
    advance-IsLive (sent query log info) n s safe (live, few, answer) = (refl, omega arith, tt)
    advance-IsLive (done info) n s safe (live, few, answer) = (refl, omega arith, tt)
    advance-IsLive panicked n s safe (live, few, answer) = cc live
