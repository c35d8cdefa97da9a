-- ===== src/Server/Upstreams.antt =====
-- The resolvers of src/resolver as the `dyn DnsResolver` of the request handler.
use mathlib.Core.Path.{subst}
use ad_nope.Prelude.{
  ℕ, ◌<◌, ◌≡◌, refl, ap, sym, String, List, Outcome, returns, panics, Result, length, Option-cases,
  inl, inr, arith,
}
use ad_nope.Dns.{RecordType}
use ad_nope.Stats.{StatsCollector, record_upstream_latency}
use ad_nope.Resolver.{Reply, Answer, Upstream, handle_lookup_result}
use ad_nope.Resolver.Policies.{
  futures_from, resolve_single, resolve_sequential, resolve_parallel, resolve_round_robin,
}
use ad_nope.Resolver.Answers.{
  resolve_round_robin-asked, resolve_sequential-asked, resolve_parallel-asked,
}
use ad_nope.Resolver.Order.{asked, first_answer}
use ad_nope.Server.Accounts.{Quiet}
use ad_nope.Resolver.Create.{Resolver, single, sequential, round_robin, parallel, upstreams_of}
use ad_nope.Server.Interfaces.{DnsResolver}
use ad_nope.Server.Expiry.{IsU32}

-- What the network does with a query: the reply of each upstream, and the order in which the
-- concurrent lookups complete. The times to live of a reply are 32-bit numbers, as hickory has them.
pub record Network : Type 1 where
  pub State : Type 0
  pub ask : State → String → RecordType → (ℕ → Reply) × List ℕ × State
  pub ask-IsU32 :
      (s : State) (name : String) (qtype : RecordType) (i : ℕ) → IsU32 ((ask s name qtype).0 i).res

-- `resolve` of the implementation at hand, and the resolver afterwards.
unfoldable pub dispatch :
    (ℕ → Reply)
    → String
    → List ℕ
    → Resolver
    → StatsCollector
    → Outcome (Result Answer × StatsCollector) × Resolver
dispatch replies name schedule (single u) stats =
    (returns (resolve_single replies name u stats), single u)
dispatch replies name schedule (sequential us) stats =
    (returns (resolve_sequential replies name us stats), sequential us)
dispatch replies name schedule (round_robin us current) stats =
    let (o, next) = resolve_round_robin replies name us current stats in (o, round_robin us next)
dispatch replies name schedule (parallel us) stats =
    (returns (resolve_parallel replies name schedule us stats), parallel us)

pub upstreams_of-dispatch :
    (replies : ℕ → Reply) (name : String) (schedule : List ℕ) (r : Resolver)
    (stats : StatsCollector)
    → upstreams_of (dispatch replies name schedule r stats).1 ≡ upstreams_of r
unfolding dispatch
upstreams_of-dispatch replies name schedule (single u) stats = refl
upstreams_of-dispatch replies name schedule (sequential us) stats = refl
upstreams_of-dispatch replies name schedule (round_robin us current) stats = refl
upstreams_of-dispatch replies name schedule (parallel us) stats = refl

-- A resolver with upstreams.
abbrev pub Working : Type 0
Working = (r : Resolver) × (0 < length (upstreams_of r))

dispatch-returns :
    (replies : ℕ → Reply) (name : String) (schedule : List ℕ) (w : Working) (stats : StatsCollector)
    → (x : Result Answer × StatsCollector) × ((dispatch replies name schedule w.0 stats).0
        ≡ returns x)
unfolding dispatch
dispatch-returns replies name schedule (single u, h) stats =
    (resolve_single replies name u stats, refl)
dispatch-returns replies name schedule (sequential us, h) stats =
    (resolve_sequential replies name us stats, refl)
dispatch-returns replies name schedule (round_robin us current, h) stats = (
  _,
  ap (λ (x : Outcome (Result Answer × StatsCollector) × ℕ). x.0)
      (resolve_round_robin-asked replies name stats us current h),
)
dispatch-returns replies name schedule (parallel us, h) stats =
    (resolve_parallel replies name schedule us stats, refl)

abbrev pub answer_in : Outcome (Result Answer × StatsCollector) → Outcome (Result Answer)
answer_in panics = panics
answer_in (returns x) = returns x.0

abbrev stats_in : Outcome (Result Answer × StatsCollector) → StatsCollector → StatsCollector
stats_in panics stats = stats
stats_in (returns x) stats = x.1

unfoldable pub resolve_on :
    (net : Network)
    → Working × net.State
    → StatsCollector
    → String
    → RecordType
    → Outcome (Result Answer) × (Working × net.State) × StatsCollector
resolve_on net (w, state) stats name qtype =
    let (replies, schedule, next) = net.ask state name qtype in
    let (o, r) = dispatch replies name schedule w.0 stats in
    (
      answer_in o,
      (
        (
          r,
          subst (λ us. 0 < length us) (sym (upstreams_of-dispatch replies name schedule w.0 stats))
              w.1,
        ),
        next,
      ),
      stats_in o stats,
    )

abbrev pub policy_resolver : Network → DnsResolver
policy_resolver net = record { State = Working × net.State; resolve = resolve_on net }

asked-Quiet :
    (replies : ℕ → Reply) (name : String) (us : List (ℕ × String)) (stats : StatsCollector)
    → Quiet stats (asked replies name us stats).1
unfolding record_upstream_latency
asked-Quiet replies name us stats = elim (Option-cases (first_answer replies us)) [
  | inl e ↦ rw (e, asked) (refl, refl)
  | inr ((u, records), e) ↦ rw (e, asked) (ground arith, ground arith)
]

resolve_single-Quiet :
    (replies : ℕ → Reply) (name : String) (u : Upstream) (stats : StatsCollector)
    → Quiet stats (resolve_single replies name u stats).1
unfolding resolve_single handle_lookup_result record_upstream_latency
resolve_single-Quiet replies name u stats = (ground arith, ground arith)

dispatch-Quiet :
    (replies : ℕ → Reply) (name : String) (schedule : List ℕ) (w : Working) (stats : StatsCollector)
    → Quiet stats (stats_in (dispatch replies name schedule w.0 stats).0 stats)
unfolding dispatch
dispatch-Quiet replies name schedule (single u, h) stats = resolve_single-Quiet replies name u stats
dispatch-Quiet replies name schedule (sequential us, h) stats =
    rw (resolve_sequential-asked replies name stats us)
      (asked-Quiet replies name (futures_from 0 us) stats)
dispatch-Quiet replies name schedule (round_robin us current, h) stats =
    rw (resolve_round_robin-asked replies name stats us current h)
      (asked-Quiet replies name _ stats)
dispatch-Quiet replies name schedule (parallel us, h) stats =
    rw (resolve_parallel-asked replies name stats schedule us) (asked-Quiet replies name _ stats)

-- A resolver with upstreams returns an answer or an error on every query, whatever the network
-- replies, and it counts neither blocked queries nor hits.
pub policy_resolver-returns :
    (net : Network) (state : Working × net.State) (stats : StatsCollector) (name : String)
    (qtype : RecordType)
    → (r : Result Answer) × (((policy_resolver net).resolve state stats name qtype).0 ≡ returns r)
      × Quiet stats ((policy_resolver net).resolve state stats name qtype).2
unfolding resolve_on
policy_resolver-returns net (w, state) stats name qtype =
    let (replies, schedule, next) = net.ask state name qtype in
    let (x, e) = dispatch-returns replies name schedule w stats in
    (x.0, ap answer_in e, dispatch-Quiet replies name schedule w stats)
