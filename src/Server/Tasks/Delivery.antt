-- ===== src/Server/Tasks/Delivery.antt =====
-- Which responses the tasks of src/server/dns_request_handler.rs have sent, in whatever order they
-- run.
use ad_nope.Prelude.{
  ℕ, zero, suc, ◌≡◌, refl, ap, sym, ◌∙◌, List, [], ◌∷◌, ◌++◌, Option, none, some, inl, inr,
  string_eq,
}
use mathlib.Core.Path.{subst}
use mathlib.Core.List.Perm
use mathlib.Core.List.{Perm, perm_middle, perm_append_comm, append-nil, append_assoc}
use ad_nope.Dns.{type_eq}
use ad_nope.Server.Interfaces.{DnsResolver, CacheLibrary, NameParser, Key}
use ad_nope.Server.Cache.{Response, Server}
use ad_nope.Server.Query.{Handler}
use ad_nope.Server.Handler.{update_blocklist}
use ad_nope.Server.Tasks.System
use ad_nope.Server.Tasks.System.{
  Stage, asking, inserting, over, Task, serving, refreshing, Turn, turn, changed, paused, resumed,
  task_step, run_at, step, run,
}
use ad_nope.Server.Tasks.Sending.{
  response_of, with_response, responses, Sends, advance-Sends, cache_answer-sent,
}

module _ (dns : DnsResolver) (moka : CacheLibrary) (names : NameParser) where
  module _ (max_instant : ℕ) (h : Handler) where
    refresh-sent :
        (now : ℕ) (key : Key) (stage : Stage) (s : Server dns moka)
        → (System.refresh_step dns moka names max_instant h now key stage s).1.sent ≡ s.sent
    refresh-sent now key asking s = refl
    refresh-sent now key (inserting r) s = cache_answer-sent dns moka names h now key r s
    refresh-sent now key over s = refl

    task_step-Sends :
        (t : Task) (s : Server dns moka)
        → Sends dns moka names (response_of t) s (
          response_of (task_step dns moka names max_instant h t s).0,
          (task_step dns moka names max_instant h t s).1,
        )
    unfolding task_step
    task_step-Sends (serving clock request pc) s = advance-Sends dns moka names h clock request pc s
    task_step-Sends (refreshing now key stage) s = inl (refresh-sent now key stage s, refl)

    -- Some responses were sent, and as many tasks have got theirs.
    abbrev pub Sent : List Task → Server dns moka → List Task × Server dns moka → Type 0
    Sent ts s o =
        (xs : List Response) × (o.1.sent ≡ s.sent ++ xs) × Perm (responses o.0) (xs ++ responses ts)

    at_head :
        (before : Option Response) (rs : List Response) (s : Server dns moka)
        (o : Option Response × Server dns moka)
        → Sends dns moka names before s o
        → (xs : List Response) × (o.1.sent ≡ s.sent ++ xs)
          × Perm (with_response o.0 rs) (xs ++ with_response before rs)
    at_head before rs s o (inl (same, kept)) = (
      [],
      same ∙ sym (append-nil s.sent),
      subst (λ r. Perm (with_response r rs) (with_response before rs)) (sym kept) (Perm.refl _),
    )
    at_head before rs s o (inr (info, more, first, now)) = (
      info ∷ [],
      more,
      subst (λ r. Perm (with_response o.0 rs) (info ∷ with_response r rs)) (sym first)
          (subst (λ r. Perm (with_response r rs) (info ∷ rs)) (sym now) (Perm.refl _)),
    )

    behind :
        (first : Option Response) (rs rs' xs : List Response)
        → Perm rs' (xs ++ rs)
        → Perm (with_response first rs') (xs ++ with_response first rs)
    behind none rs rs' xs p = p
    behind (some info) rs rs' xs p = Perm.trans (Perm.cons info p) (Perm.symm (perm_middle xs rs))

    run_at-Sent :
        (i : ℕ) (ts : List Task) (s : Server dns moka)
        → Sent ts s (run_at dns moka names max_instant h i ts s)
    unfolding run_at
    run_at-Sent i [] s = ([], sym (append-nil s.sent), Perm.refl [])
    run_at-Sent zero (t ∷ ts) s =
        at_head (response_of t) (responses ts) s
          (
            response_of (task_step dns moka names max_instant h t s).0,
            (task_step dns moka names max_instant h t s).1,
          )
          (task_step-Sends t s)
    run_at-Sent (suc i) (t ∷ ts) s =
        let (xs, e, p) = run_at-Sent i ts s in (xs, e, behind (response_of t) (responses ts) _ xs p)

    -- Over any turns in any order, of requests, of background tasks, of changes of the blocklist and of
    -- pauses: the responses that were sent are, in some order, exactly those with which a request has
    -- got past sending since, so that none is sent twice, and none without its request.
    pub run-Sent :
        (turns : List Turn) (sys : System.System dns moka names)
        → Sent sys.tasks sys.server (
          (run dns moka names max_instant h sys turns).tasks,
          (run dns moka names max_instant h sys turns).server,
        )
    unfolding run step update_blocklist
    run-Sent [] sys = ([], sym (append-nil sys.server.sent), Perm.refl _)
    run-Sent (turn i ∷ turns) sys =
        let (xs, e, p) = run_at-Sent i sys.tasks sys.server in
        let (ys, e', q) = run-Sent turns (step dns moka names max_instant h sys (turn i)) in
        (
          xs ++ ys,
          e' ∙ ap (λ rs. rs ++ ys) e ∙ append_assoc sys.server.sent xs ys,
          Perm.trans q (
              Perm.trans (Perm.append_left ys p) (
                subst (λ rs. Perm rs ((xs ++ ys) ++ responses sys.tasks))
                  (append_assoc ys xs (responses sys.tasks))
                  (Perm.append_right (responses sys.tasks) (perm_append_comm ys xs)))),
        )
    run-Sent (changed blocklist ∷ turns) sys =
        run-Sent turns (step dns moka names max_instant h sys (changed blocklist))
    run-Sent (paused now duration ∷ turns) sys =
        run-Sent turns (step dns moka names max_instant h sys (paused now duration))
    run-Sent (resumed ∷ turns) sys = run-Sent turns (step dns moka names max_instant h sys resumed)
