-- ===== src/Server/Wire.antt =====
-- The times to live of the answers that the resolvers of src/resolver give.
use mathlib.Core.Path.{subst}
use ad_nope.Prelude.{
  ℕ, ◌^◌, ◌<◌, ◌≡◌, Bool, true, false, String, List, [], ◌∷◌, Option, none, some, Outcome, returns,
  panics, Result, ok, err, Option-cases, inl, inr, All, if◌then◌else◌,
}
use ad_nope.Prelude.Text.{contains}
use ad_nope.Dns.{RecordType, Record}
use ad_nope.Stats.{StatsCollector}
use ad_nope.Resolver.{Reply, Answer, Upstream, handle_lookup_result}
use ad_nope.Resolver.Policies.{futures_from, single_error, resolve_single}
use ad_nope.Resolver.Answers.{
  resolve_round_robin-asked, resolve_sequential-asked, resolve_parallel-asked,
}
use ad_nope.Resolver.Order.{answer_of, asked, first_answer}
use ad_nope.Resolver.Create.{single, sequential, round_robin, parallel}
use ad_nope.Server.Accounts.{Quiet}
use ad_nope.Server.Expiry.{IsU32, HasU32}
use ad_nope.Server.Upstreams.{
  Network, Working, dispatch, answer_in, resolve_on, policy_resolver, policy_resolver-returns,
}

abbrev IsU32Found : Option (List Record) → Type 0
IsU32Found none = Unit
IsU32Found (some records) = All (λ r. r.ttl < 2 ^ 32) records

if-IsU32Found :
    (b : Bool) (o p : Option (List Record))
    → IsU32Found o
    → IsU32Found p
    → IsU32Found (if b then o else p)
if-IsU32Found true o p h i = h
if-IsU32Found false o p h i = i

answer_of-IsU32 : (res : Result (List Record)) → IsU32 res → IsU32Found (answer_of res)
answer_of-IsU32 (ok records) h = h
answer_of-IsU32 (err e) h = if-IsU32Found (contains "no records found" e) (some []) none tt tt

module _ (replies : ℕ → Reply) (words : (i : ℕ) → IsU32 (replies i).res) where
  first_answer-IsU32 :
      (us : List (ℕ × String)) (u : ℕ × String) (records : List Record)
      → first_answer replies us ≡ some (u, records)
      → All (λ r. r.ttl < 2 ^ 32) records
  first_answer-IsU32 [] u records h = cc h
  first_answer-IsU32 (v ∷ us) u records h = elim (Option-cases (answer_of (replies v.0).res)) [
    | inl e ↦ first_answer-IsU32 us u records (rw (e, first_answer) at h)
    | inr (found, e) ↦
        let given : some (v, found) ≡ some (u, records) = rw (e, first_answer) at h in
        let same : found ≡ records = cc given in
        let all : IsU32Found (some found) =
          subst IsU32Found e (answer_of-IsU32 (replies v.0).res (words v.0)) in
        subst (λ rs. IsU32Found (some rs)) same all
  ]

  asked-HasU32 :
      (name : String) (us : List (ℕ × String)) (stats : StatsCollector)
      → HasU32 (asked replies name us stats).0
  asked-HasU32 name us stats = elim (Option-cases (first_answer replies us)) [
    | inl e ↦ rw (e, asked) tt
    | inr ((u, records), e) ↦ rw (e, asked) (first_answer-IsU32 us u records e)
  ]

  if-HasU32 :
      (b : Bool) (x y : Result Answer × StatsCollector)
      → HasU32 x.0
      → HasU32 y.0
      → HasU32 (if b then x else y).0
  if-HasU32 true x y h i = h
  if-HasU32 false x y h i = i

  handle_lookup_result-HasU32 :
      (res : Result (List Record)) (ms idx : ℕ) (url : String) (stats : StatsCollector)
      → IsU32 res
      → HasU32 (handle_lookup_result (record { res = res; elapsed_ms = ms }) stats idx url).0
  unfolding handle_lookup_result
  handle_lookup_result-HasU32 (ok records) ms idx url stats h = h
  handle_lookup_result-HasU32 (err e) ms idx url stats h =
      if-HasU32 (contains "no records found" e) (ok ([], url), _) (err e, stats) tt tt

  single_error-HasU32 :
      (name : String) (r : Result Answer) (stats : StatsCollector)
      → HasU32 r
      → HasU32 (single_error name (r, stats)).0
  single_error-HasU32 name (ok answer) stats h = h
  single_error-HasU32 name (err e) stats h = tt

  resolve_single-HasU32 :
      (name : String) (u : Upstream) (stats : StatsCollector)
      → HasU32 (resolve_single replies name u stats).0
  unfolding resolve_single
  resolve_single-HasU32 name u stats =
      let (r, after) = handle_lookup_result (replies 0) stats 0 u.url in
      single_error-HasU32 name r after
        (handle_lookup_result-HasU32 (replies 0).res (replies 0).elapsed_ms 0 u.url stats (words 0))

  abbrev HasU32Outcome : Outcome (Result Answer) → Type 0
  HasU32Outcome panics = Unit
  HasU32Outcome (returns r) = HasU32 r

  dispatch-HasU32 :
      (name : String) (schedule : List ℕ) (w : Working) (stats : StatsCollector)
      → HasU32Outcome (answer_in (dispatch replies name schedule w.0 stats).0)
  unfolding dispatch
  dispatch-HasU32 name schedule (single u, h) stats = resolve_single-HasU32 name u stats
  dispatch-HasU32 name schedule (sequential us, h) stats =
      rw (resolve_sequential-asked replies name stats us)
        (asked-HasU32 name (futures_from 0 us) stats)
  dispatch-HasU32 name schedule (round_robin us current, h) stats =
      rw (resolve_round_robin-asked replies name stats us current h) (asked-HasU32 name _ stats)
  dispatch-HasU32 name schedule (parallel us, h) stats =
      rw (resolve_parallel-asked replies name stats schedule us) (asked-HasU32 name _ stats)

-- A resolver with upstreams returns an error or records whose times to live are 32-bit numbers, and it
-- counts neither blocked queries nor hits.
pub policy_resolver-HasU32 :
    (net : Network) (state : Working × net.State) (stats : StatsCollector) (name : String)
    (qtype : RecordType)
    → (r : Result Answer) × (((policy_resolver net).resolve state stats name qtype).0 ≡ returns r)
      × Quiet stats ((policy_resolver net).resolve state stats name qtype).2
      × HasU32 r
unfolding resolve_on
policy_resolver-HasU32 net (w, state) stats name qtype =
    let (replies, schedule, next) = net.ask state name qtype in
    let (r, e, quiet) = policy_resolver-returns net (w, state) stats name qtype in
    let words = dispatch-HasU32 replies (net.ask-IsU32 state name qtype) name schedule w stats in
    (r, e, quiet, subst (HasU32Outcome replies (net.ask-IsU32 state name qtype)) e words)
