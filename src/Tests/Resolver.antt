-- ===== src/Tests/Resolver.antt =====
-- The theorems on the upstream policies, at concrete inputs.
use ad_nope.Tests.Fixtures.{upstream}
use ad_nope.Prelude.{
  ℕ, ◌≡◌, ◌↔◌, List, [], ◌∷◌, Result, err, returns, arith, ◌==◌, nat_eq, if◌then◌else◌,
}
use ad_nope.Prelude.Index.{rotate}
use ad_nope.Prelude.Schedule.{completed}
use ad_nope.Prelude.Words.{add_u64}
use ad_nope.Stats
use ad_nope.Stats.{StatsCollector}
use ad_nope.Resolver.{Answer, Upstream, Reply}
use ad_nope.Config.{Config, default_config}
use ad_nope.Resolver.Create.{Resolver, single}
use ad_nope.Resolver.Policies.{
  futures_from, resolve_sequential, resolve_parallel, resolve_round_robin,
}
use ad_nope.Resolver.Order.{asked}
use ad_nope.Resolver.Answers.{
  Answering, Succeeds, resolve_parallel-asked, resolve_round_robin-asked, policies_agree,
}

abbrev pair : List Upstream
pair = upstream "udp://1" ∷ upstream "udp://2" ∷ []

-- The first upstream is down, the second knows no record.
abbrev replies : ℕ → Reply
replies i = record {
  res = if i == 0 then err "timed out" else err "no records found for query";
  elapsed_ms = 20;
}

abbrev stats : StatsCollector
stats = Stats.new 0 60 [] []

resolve_parallel-asked_example :
    resolve_parallel replies "a.com" (1 ∷ []) pair stats
    ≡ asked replies "a.com" (completed (1 ∷ []) (futures_from 0 pair)) stats
resolve_parallel-asked_example = resolve_parallel-asked replies "a.com" stats (1 ∷ []) pair

resolve_round_robin-asked_example :
    resolve_round_robin replies "a.com" pair 3 stats
    ≡ (returns (asked replies "a.com" (rotate 1 (futures_from 0 pair)) stats), add_u64 3 1)
resolve_round_robin-asked_example =
    resolve_round_robin-asked replies "a.com" stats pair 3 (omega arith)

policies_agree_example :
    (Succeeds replies "a.com" stats (resolve_sequential replies "a.com" pair stats).0
      ↔ Answering replies (futures_from 0 pair))
    × (Succeeds replies "a.com" stats (resolve_parallel replies "a.com" (1 ∷ []) pair stats).0
        ↔ Answering replies (futures_from 0 pair))
    × ((r : Result Answer × StatsCollector) × ((resolve_round_robin replies "a.com" pair 3 stats).0
          ≡ returns r)
        × (Succeeds replies "a.com" stats r.0 ↔ Answering replies (futures_from 0 pair)))
policies_agree_example = policies_agree replies "a.com" stats pair (1 ∷ []) 3 (omega arith)

abbrev one_server : Config
one_server = record default_config { upstream_servers = "udp://1" ∷ [] }

abbrev created : Resolver
created = single (upstream "udp://1")
