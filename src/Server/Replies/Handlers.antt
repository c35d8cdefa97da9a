-- ===== src/Server/Replies/Handlers.antt =====
-- What each handler of src/server/dns_request_handler.rs sends, logs and counts.
use mathlib.Core.Path.{subst}
use ad_nope.Prelude.{
  ℕ, ◌≡◌, ◌⊎◌, refl, ap, sym, ◌∙◌, Bool, true, false, List, [], ◌∷◌, ◌++◌, Option, none, some, inl,
  inr, returns, Outcome, Result, ok, err, arith, if◌then◌else◌, string_eq,
}
use ad_nope.Prelude.Text.{concat}
use ad_nope.Dns.{Record, type_eq}
use ad_nope.Engine.State.{is_blocking_active, unwrap, active_at}
use ad_nope.Logger
use ad_nope.Logger.{Channel}
use ad_nope.Stats.{
  inc_cache_hit, inc_blocked, inc_blocked_by_source, inc_client_block, inc_domain_block,
}
use ad_nope.Server.Accounts.{Quiet, Accounted, Accounted-Quiet}
use ad_nope.Resolver.{Answer}
use ad_nope.Server.Action.{Action, resume_with}
use ad_nope.Server.Interfaces.{DnsResolver, CacheLibrary, NameParser}
use ad_nope.Server.Cache.{
  ResponseCode, no_error, nx_domain, serv_fail, Response, Server, check_cache,
}
use ad_nope.Server.Query.{
  local_log, blocked_log, cached_log, forwarded_log, QueryContext, LogContext, Request, Clock,
  Handler, log_entry, blocked_record, answers_query,
}
use ad_nope.Server.Handler.{
  serve_local, serve_listed, check_blocklist, handled, handle_listed, handle_blocked_request,
  serve_cached, after_lookup, handle_cached_response, serve_answer, ◌otherwise◌,
}
use ad_nope.Server.Handler.Responses.{
  respond_blocked, send_response, log_query, respond, serve_records, count_blocked, serve_blocked,
}

module _ (dns : DnsResolver) (moka : CacheLibrary) (names : NameParser) where
  -- Nothing was sent, logged or counted, and the lock is as it was.
  abbrev pub Same : Server dns moka → Server dns moka → Type 0
  Same s t =
      (t.sent ≡ s.sent)
      × (t.logger ≡ s.logger)
      × (t.app_state ≡ s.app_state)
      × Quiet s.stats t.stats

  module _ (h : Handler) (clock : Clock) (request : Request) (query : QueryContext) where
    abbrev pub logged : LogContext → List Channel → List Channel
    logged log channels =
        if h.config.logging.enable
        then Logger.log (log_entry clock request query log) channels
        else channels

    -- The call returned a response, which it sent once, and it logged one entry if logging is on, which
    -- accounts for what it counted.
    abbrev pub Replied {ℓ} :
        {A : Type ℓ} → (Response → A) → Server dns moka → Outcome A × Server dns moka → Type ℓ
    Replied wrap s o =
        (info : Response) × (log : LogContext) × (o.0 ≡ returns (wrap info))
        × (o.1.sent ≡ s.sent ++ (info ∷ []))
        × (o.1.logger ≡ logged log s.logger)
        × Accounted log s.stats o.1.stats

    abbrev pub Tried : Server dns moka → Outcome (Option Response) × Server dns moka → Type 0
    Tried s o = ((o.0 ≡ returns none) × Same s o.1) ⊎ Replied some s o

    module _ (deliverable : request.deliverable ≡ true) where
      pub respond-Replied :
          (code : ResponseCode) (records : List Record) (log : LogContext) (s t : Server dns moka)
          → t.sent ≡ s.sent
          → t.logger ≡ s.logger
          → Accounted log s.stats t.stats
          → Replied (λ r. r) s (respond dns moka names h clock request code records query log t)
      unfolding respond send_response log_query
      respond-Replied code records log s t sent_same logger_same (b, c) = (
        record { code = code; authoritative = false; answers = records },
        log,
        ground arith,
        ground arith,
        ground arith,
        (ground arith, ground arith),
      )

      handled-Replied :
          (m : Action (Server dns moka) Response) (s t : Server dns moka)
          → Same s t
          → Replied (λ r. r) t (m t)
          → Tried s (handled dns moka names m t)
      handled-Replied m s t (sent_same, logger_same, _, quiet) (info, log, e, sent, logger, acct) =
          inr (
            info,
            log,
            rw e refl,
            (rw e sent) ∙ ap (λ l. l ++ (info ∷ [])) sent_same,
            (rw e logger) ∙ ap (logged log) logger_same,
            rw e (Accounted-Quiet log s.stats t.stats (m t).1.stats quiet acct),
          )

      if-Tried :
          (b : Bool) (m n : Action (Server dns moka) (Option Response)) (s : Server dns moka)
          → Tried s (m s)
          → Tried s (n s)
          → Tried s ((if b then m else n) s)
      if-Tried true m n s p q = p
      if-Tried false m n s p q = q

      pub serve_local-Tried :
          (found : Option (List Record)) (s : Server dns moka)
          → Tried s (serve_local dns moka names h clock request query found s)
      unfolding serve_local serve_records
      serve_local-Tried none s = inl (refl, (refl, refl, refl, (refl, refl)))
      serve_local-Tried (some records) s =
          if-Tried (answers_query query.qtype records) _ _ s
            (handled-Replied (serve_records dns moka names h clock request records query local_log)
              s s (refl, refl, refl, (refl, refl))
              (respond-Replied no_error records local_log s s refl refl (refl, refl)))
            (inl (refl, (refl, refl, refl, (refl, refl))))

      respond_blocked-Replied :
          (log : LogContext) (o : Option Record) (s t : Server dns moka)
          → t.sent ≡ s.sent
          → t.logger ≡ s.logger
          → Accounted log s.stats t.stats
          → Replied (λ r. r) s (respond_blocked dns moka names h clock request query log o t)
      unfolding respond_blocked serve_records
      respond_blocked-Replied log none s t p q a = respond-Replied nx_domain [] log s t p q a
      respond_blocked-Replied log (some r) s t p q a =
          respond-Replied no_error (r ∷ []) log s t p q a

      serve_blocked-Replied :
          (id : ℕ) (s : Server dns moka)
          → Replied (λ r. r) s (serve_blocked dns moka names h clock request query id s)
      unfolding serve_blocked count_blocked inc_blocked_by_source inc_blocked inc_client_block
          inc_domain_block
      serve_blocked-Replied id s =
          respond_blocked-Replied (blocked_log id) (blocked_record names query) s
            (count_blocked dns moka names request query id s) refl refl (refl, refl)

      serve_listed-Tried :
          (o : Option ℕ) (s : Server dns moka)
          → Tried s (serve_listed dns moka names h clock request query o s)
      unfolding serve_listed
      serve_listed-Tried none s = inl (refl, (refl, refl, refl, (refl, refl)))
      serve_listed-Tried (some id) s =
          handled-Replied (serve_blocked dns moka names h clock request query id) s s
            (refl, refl, refl, (refl, refl)) (serve_blocked-Replied id s)

      handle_listed-Tried :
          (active : Bool) (s : Server dns moka)
          → Tried s (handle_listed dns moka names h clock request query active s)
      unfolding handle_listed
      handle_listed-Tried false s = inl (refl, (refl, refl, refl, (refl, refl)))
      handle_listed-Tried true s =
          serve_listed-Tried (check_blocklist dns moka names query.name s) s

      pub handle_blocked_request-Tried :
          (s : Server dns moka)
          → s.app_state.poisoned ≡ false
          → Tried s (handle_blocked_request dns moka names h clock request query s)
      unfolding handle_blocked_request is_blocking_active unwrap
      handle_blocked_request-Tried s safe =
          let active = active_at s.app_state.blocking_paused_until clock.pause_check in
          let e : unwrap s.app_state active ≡ returns active = rw safe refl in
          subst
            (λ o. Tried s (resume_with o s (handle_listed dns moka names h clock request query)))
            (sym e) (handle_listed-Tried active s)

      serve_cached-Replied :
          (records : List Record) (is_stale : Bool) (ttl : Option ℕ) (s : Server dns moka)
          → Replied
              (λ r. r)
              s
              (serve_cached dns moka names h clock request query records is_stale ttl s)
      unfolding serve_cached serve_records inc_cache_hit
      serve_cached-Replied records is_stale ttl s =
          let t : Server dns moka = record s {
            stats = inc_cache_hit s.stats;
            spawned = if is_stale then s.spawned ++ ((query.name, query.qtype) ∷ []) else s.spawned;
          } in
          respond-Replied no_error records (cached_log ttl) s t refl refl (refl, refl)

      after_lookup-Tried :
          (found : Option (List Record × Bool × Option ℕ)) (s t : Server dns moka)
          → Same s t
          → Tried s (after_lookup dns moka names h clock request query found t)
      unfolding after_lookup
      after_lookup-Tried none s t same = inl (refl, same)
      after_lookup-Tried (some (records, is_stale, ttl)) s t same =
          handled-Replied (serve_cached dns moka names h clock request query records is_stale ttl) s
            t same (serve_cached-Replied records is_stale ttl t)

      pub handle_cached_response-Tried :
          (s : Server dns moka)
          → Tried s (handle_cached_response dns moka names h clock request query s)
      unfolding handle_cached_response check_cache
      handle_cached_response-Tried s =
          let (found, t) = check_cache dns moka clock.cache_check query.name query.qtype s in
          after_lookup-Tried found s t (refl, refl, refl, (refl, refl))

      pub serve_answer-Replied :
          (r : Result Answer) (s : Server dns moka)
          → Replied (λ r. r) s (serve_answer dns moka names h clock request query r s)
      unfolding serve_answer serve_records
      serve_answer-Replied (ok (records, upstream)) s =
          respond-Replied no_error records (forwarded_log upstream) s s refl refl (refl, refl)
      serve_answer-Replied (err e) s =
          respond-Replied serv_fail [] (forwarded_log (concat "error: " e)) s s refl refl
            (refl, refl)

      -- From one state to another that differs in nothing that the client or the log sees.
      pub Replied-Same :
          (s t : Server dns moka) (o : Outcome Response × Server dns moka)
          → Same s t
          → Replied (λ r. r) t o
          → Replied (λ r. r) s o
      Replied-Same s t o (sent_same, logger_same, _, quiet) (info, log, e, sent, logger, acct) = (
        info,
        log,
        e,
        sent ∙ ap (λ l. l ++ (info ∷ [])) sent_same,
        logger ∙ ap (logged log) logger_same,
        Accounted-Quiet log s.stats t.stats o.1.stats quiet acct,
      )

      pub otherwise-Replied :
          (m : Action (Server dns moka) (Option Response)) (n : Action (Server dns moka) Response)
          (s : Server dns moka)
          → Tried s (m s)
          → ((t : Server dns moka) → Same s t → Replied (λ r. r) t (n t))
          → Replied (λ r. r) s (◌otherwise◌ dns moka names m n s)
      otherwise-Replied m n s (inl (e, same)) next =
          rw e (Replied-Same s (m s).1 (n (m s).1) same (next (m s).1 same))
      otherwise-Replied m n s (inr (info, log, e, sent, logger, acct)) next =
          (info, log, rw e refl, rw e sent, rw e logger, rw e acct)
