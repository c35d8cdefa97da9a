-- ===== src/Stats/SourceCounts.antt =====
-- The counters by source of src/stats.rs share out the blocked queries.
use ad_nope.Prelude.{
  ℕ, zero, suc, ◌+◌, ◌%◌, ◌<◌, ◌≡◌, refl, ◌∙◌, List, [], ◌∷◌, String, arith, sum, length,
  length-modify, modify, replicate, length-replicate,
}
use ad_nope.Prelude.Words.{add_u64, u64_mod}
use ad_nope.Stats.{StatsCollector, new, sources}
use ad_nope.Stats.Events.{Event, blocked, blocked_by, apply, apply_all, methods}

sum-modify :
    (xs : List ℕ) (i : ℕ)
    → i < length xs
    → sum (modify xs i (λ c. add_u64 c 1)) % u64_mod ≡ (sum xs + 1) % u64_mod
sum-modify [] i h = absurd (omega arith)
sum-modify (x ∷ xs) zero h = omega arith
sum-modify (x ∷ xs) (suc i) h = omega (arith, sum-modify xs i (omega arith))

-- The sources share out the blocked queries.
pub record IsShared (s : StatsCollector) : Type 0 where
  pub width : length s.blocked_queries_by_source_id ≡ sources
  pub shared : sum s.blocked_queries_by_source_id % u64_mod ≡ s.blocked_queries

abbrev pub IsValidSource : Event → Type 0
IsValidSource blocked = ⊥
IsValidSource (blocked_by id) = id < sources
IsValidSource _ = Unit

apply-IsShared :
    (s : StatsCollector) (e : Event) → IsValidSource e → IsShared s → IsShared (apply s e)
unfolding methods
apply-IsShared s (blocked_by id) v h = record {
  width = length-modify s.blocked_queries_by_source_id id _ ∙ h.width;
  shared = omega (arith, h.shared, sum-modify s.blocked_queries_by_source_id id (rw h.width v));
}
apply-IsShared s e v h = ground arith

abbrev pub AreValidSources : List Event → Type 0
AreValidSources [] = Unit
AreValidSources (e ∷ es) = IsValidSource e × AreValidSources es

-- Calls other than `inc_blocked` by itself, with sources below 256, keep the invariant: the counters
-- by source number 256, and their sum is the number of blocked queries, modulo 2^64.
pub apply_all-IsShared :
    (es : List Event) (s : StatsCollector)
    → AreValidSources es
    → IsShared s
    → IsShared (apply_all s es)
unfolding apply_all
apply_all-IsShared [] s v h = h
apply_all-IsShared (e ∷ es) s v h = apply_all-IsShared es (apply s e) v.1 (apply-IsShared s e v.0 h)

sum-replicate : (n : ℕ) → sum (replicate n 0) ≡ 0
sum-replicate zero = refl
sum-replicate (suc n) = omega (arith, sum-replicate n)

pub new-IsShared : (now interval : ℕ) (us bs : List String) → IsShared (new now interval us bs)
unfolding new
new-IsShared now interval us bs = record {
  width = length-replicate {A = ℕ} sources 0;
  shared = omega (arith, sum-replicate sources);
}
