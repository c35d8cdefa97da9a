-- ===== src/Server/Filter/History.antt =====
-- Histories of the handler of src/server/dns_request_handler.rs: requests, and the background tasks
-- that refresh stale entries, in any order.
use mathlib.Core.Path.{subst}
use ad_nope.Prelude.{
  ℕ, ◌≡◌, refl, ap, sym, ◌∙◌, Bool, true, false, ◌&&◌, String, List, [], ◌∷◌, Option, All,
  if◌then◌else◌, ◌==◌, string_eq, pair_eq,
}
use ad_nope.Prelude.HashMap
use ad_nope.Prelude.HashMap.{HashMap}
use ad_nope.Config.{Config}
use ad_nope.Dns.{aaaa, type_eq}
use ad_nope.Engine.State.{AppState}
use ad_nope.Stats.{StatsCollector}
use ad_nope.Logger.{Channel}
use ad_nope.Server.Action.{Action}
use ad_nope.Server.Interfaces.{DnsResolver, CacheLibrary, NameParser, Key}
use ad_nope.Server.Cache.{Response, Server}
use ad_nope.Server.Query.{
  QueryContext, Request, Clock, Handler, new_handler, get_query_info, ipv6_log,
}
use ad_nope.Server.Handler.{
  new, serve_query, count_query, count_domain, handle_request, refresh_stale,
}
use ad_nope.Server.Handler.Responses.{serve_records}
use ad_nope.Server.Filter.{HasNoAaaa, IsHeld, IsSingle, local_records_from-IsSingle}
use ad_nope.Server.Filter.Handlers.{serve_records-IsFiltered}
use ad_nope.Server.Filter.Decided.{decided, serve_decided-IsFiltered}
use ad_nope.Server.Filter.Cached.{IsFiltered, resolve_and_cache-IsFiltered, bind-IsFiltered}

-- What happens to the server: a request is handled, or a task refreshes an entry.
pub data Step : Type 0 where
  serve : Clock → Request → Step
  refresh : ℕ → Key → Step

module _ (dns : DnsResolver) (moka : CacheLibrary) (names : NameParser) where
  unfoldable pub step : Handler → Server dns moka → Step → Server dns moka
  step h s (serve clock request) = (handle_request dns moka names h clock request s).1
  step h s (refresh now key) = refresh_stale dns moka names h.config now key s

  unfoldable pub run : Handler → Server dns moka → List Step → Server dns moka
  run h s [] = s
  run h s (e ∷ es) = run h (step h s e) es

  module _ (h : Handler) (filtering : h.config.disable_ipv6 ≡ true)
      (single : (k : String) → IsSingle (HashMap.get k h.local_records)) where
    guarded-IsFiltered :
        (b : Bool) (m n : Action (Server dns moka) Response) (s : Server dns moka)
        → IsFiltered dns moka names (m s).1
        → (b ≡ false → IsFiltered dns moka names (n s).1)
        → IsFiltered dns moka names ((if b then m else n) s).1
    guarded-IsFiltered true m n s i next = i
    guarded-IsFiltered false m n s i next = next refl

    serve_query-IsFiltered :
        (clock : Clock) (request : Request) (query : QueryContext) (s : Server dns moka)
        → IsFiltered dns moka names s
        → IsFiltered dns moka names (serve_query dns moka names h clock request query s).1
    unfolding serve_query
    serve_query-IsFiltered clock request query s i =
        guarded-IsFiltered (h.config.disable_ipv6 && query.qtype == aaaa)
          (serve_records dns moka names h clock request [] query ipv6_log)
          (decided dns moka names h filtering clock request query) s
          (serve_records-IsFiltered dns moka names h filtering clock request query [] ipv6_log s tt
            i)
          (λ e.
            serve_decided-IsFiltered dns moka names h filtering clock request query
              (ap (λ d. d && query.qtype == aaaa) (sym filtering) ∙ e) single s i)

    handle_request-IsFiltered :
        (clock : Clock) (request : Request) (s : Server dns moka)
        → IsFiltered dns moka names s
        → IsFiltered dns moka names (handle_request dns moka names h clock request s).1
    unfolding handle_request count_query count_domain
    handle_request-IsFiltered clock request s i =
        bind-IsFiltered dns moka names h filtering (get_query_info clock request)
          (count_query dns moka names request s) _ (record { held = i.held; clean = i.clean })
          (λ query.
            serve_query-IsFiltered clock request query
              (count_domain dns moka names query (count_query dns moka names request s))
              (record { held = i.held; clean = i.clean }))

    step-IsFiltered :
        (s : Server dns moka) (e : Step)
        → IsFiltered dns moka names s
        → IsFiltered dns moka names (step h s e)
    unfolding step refresh_stale
    step-IsFiltered s (serve clock request) i = handle_request-IsFiltered clock request s i
    step-IsFiltered s (refresh now key) i =
        (resolve_and_cache-IsFiltered dns moka names h filtering now key.0 key.1 s i).1

    run-IsFiltered :
        (s : Server dns moka) (es : List Step)
        → IsFiltered dns moka names s
        → IsFiltered dns moka names (run h s es)
    unfolding run
    run-IsFiltered s [] i = i
    run-IsFiltered s (e ∷ es) i = run-IsFiltered (step h s e) es (step-IsFiltered s e i)

  -- With `disable_ipv6`, no response that a new server sends, over any sequence of requests and of
  -- refreshes of stale entries, has an AAAA record, whatever the resolver answers.
  pub run-HasNoAaaa :
      (config : Config) (stats : StatsCollector) (logger : List Channel)
      (blocklist : String → Option ℕ) (resolver : dns.State) (app_state : AppState) (es : List Step)
      → config.disable_ipv6 ≡ true
      → All
          (λ r. HasNoAaaa r.answers)
          (run
            (new dns moka names config stats logger blocklist resolver app_state).0
            (new dns moka names config stats logger blocklist resolver app_state).1
            es).sent
  unfolding new new_handler
  run-HasNoAaaa config stats logger blocklist resolver app_state es filtering =
      let (h, s) = new dns moka names config stats logger blocklist resolver app_state in
      let i =
        run-IsFiltered h filtering
          (λ k.
            local_records_from-IsSingle names config.cache.min_ttl config.local_records [] k
              (subst IsSingle (sym (HashMap.get-nil k)) tt))
          s es
          (record {
            held = λ k. subst IsHeld (sym (moka.get-build config.cache.capacity k)) tt;
            clean = tt;
          }) in
      i.clean
