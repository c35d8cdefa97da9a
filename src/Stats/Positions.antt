-- ===== src/Stats/Positions.antt =====
-- The counters by position of src/stats.rs: the sources, and the upstreams with their times.
use ad_nope.Prelude.{
  ℕ, zero, suc, ◌+◌, ◌%◌, ◌<◌, ◌≡◌, refl, ap, ◌∙◌, Bool, List, [], ◌∷◌, arith, ◌==◌, nat_eq,
  if◌then◌else◌, length, length-modify, modify, replicate,
}
use ad_nope.Prelude.Words.{add_u64, u64_mod}
use ad_nope.Stats.{StatsCollector, sources, upstreams}
use ad_nope.Stats.Events.{
  Event, blocked_by, latency, apply, apply_all, occurrences, is_blocked_by, is_latency_of,
  milliseconds_of, milliseconds, counter_at, methods,
}

-- The widths of the three lists.
pub record IsWide (s : StatsCollector) : Type 0 where
  pub by_source : length s.blocked_queries_by_source_id ≡ sources
  pub replies : length s.upstream_count ≡ upstreams
  pub times : length s.upstream_total_ms ≡ upstreams

apply-IsWide : (s : StatsCollector) (e : Event) → IsWide s → IsWide (apply s e)
unfolding methods
apply-IsWide s (blocked_by id) w = record {
  by_source = length-modify s.blocked_queries_by_source_id id _ ∙ w.by_source;
  replies = w.replies;
  times = w.times;
}
apply-IsWide s (latency k ms) w = record {
  by_source = ground (arith, w.by_source);
  replies = ground (arith, w.replies, length-modify {A = ℕ} s.upstream_count k (λ c. add_u64 c 1));
  times = ground (arith, w.times, length-modify {A = ℕ} s.upstream_total_ms k (λ c. add_u64 c ms));
}
apply-IsWide s e w = ground arith

pub apply_all-IsWide : (es : List Event) (s : StatsCollector) → IsWide s → IsWide (apply_all s es)
unfolding apply_all
apply_all-IsWide [] s w = w
apply_all-IsWide (e ∷ es) s w = apply_all-IsWide es (apply s e) (apply-IsWide s e w)

counter_at-modify :
    (xs : List ℕ) (k i n : ℕ)
    → i < length xs
    → counter_at (modify xs k (λ c. add_u64 c n)) i
      ≡ (if k == i then add_u64 (counter_at xs i) n else counter_at xs i)
counter_at-modify [] k i n h = absurd (omega arith)
counter_at-modify (x ∷ xs) zero zero n h = refl
counter_at-modify (x ∷ xs) zero (suc i) n h = ground arith
counter_at-modify (x ∷ xs) (suc k) zero n h = ground arith
counter_at-modify (x ∷ xs) (suc k) (suc i) n h =
    ground (arith, counter_at-modify xs k i n (omega arith))

-- What the events add up to, each with a weight.
abbrev total : (Event → ℕ) → List Event → ℕ
total w [] = 0
total w (e ∷ es) = w e + total w es

-- A number of the state that grows by the weight of every event, modulo 2^64, is their total.
total_from :
    (value : StatsCollector → ℕ) (w : Event → ℕ)
    → ((s : StatsCollector) (e : Event)
        → IsWide s
        → value s < u64_mod
        → value (apply s e) ≡ add_u64 (value s) (w e))
    → (es : List Event) (s : StatsCollector) → IsWide s
    → value s < u64_mod
    → value (apply_all s es) ≡ (value s + total w es) % u64_mod
unfolding apply_all
total_from value w step [] s wide h = omega arith
total_from value w step (e ∷ es) s wide h = omega (
  arith,
  step s e wide h,
  total_from value w step es (apply s e) (apply-IsWide s e wide) (omega (arith, step s e wide h)),
)

total-occurrences :
    (p : Event → Bool) (es : List Event) → total (λ e. if p e then 1 else 0) es ≡ occurrences p es
total-occurrences p [] = refl
total-occurrences p (e ∷ es) = ap (λ n. (if p e then 1 else 0) + n) (total-occurrences p es)

total-milliseconds : (i : ℕ) (es : List Event) → total (milliseconds_of i) es ≡ milliseconds i es
total-milliseconds i [] = refl
total-milliseconds i (e ∷ es) = ap (λ n. milliseconds_of i e + n) (total-milliseconds i es)

-- The same from a state where the number is 0.
pub counts_at :
    (value : StatsCollector → ℕ) (p : Event → Bool)
    → ((s : StatsCollector) (e : Event)
        → IsWide s
        → value s < u64_mod
        → value (apply s e) ≡ add_u64 (value s) (if p e then 1 else 0))
    → (es : List Event) (s : StatsCollector) → IsWide s
    → value s ≡ 0
    → value (apply_all s es) ≡ occurrences p es % u64_mod
counts_at value p step es s wide h = omega (
  arith,
  total-occurrences p es,
  total_from value (λ e. if p e then 1 else 0) step es s wide (omega arith),
)

pub adds_at :
    (value : StatsCollector → ℕ) (i : ℕ)
    → ((s : StatsCollector) (e : Event)
        → IsWide s
        → value s < u64_mod
        → value (apply s e) ≡ add_u64 (value s) (milliseconds_of i e))
    → (es : List Event) (s : StatsCollector) → IsWide s
    → value s ≡ 0
    → value (apply_all s es) ≡ milliseconds i es % u64_mod
adds_at value i step es s wide h = omega (
  arith,
  total-milliseconds i es,
  total_from value (milliseconds_of i) step es s wide (omega arith),
)

pub apply-source :
    (id : ℕ)
    → id < sources
    → (s : StatsCollector) (e : Event) → IsWide s
    → counter_at s.blocked_queries_by_source_id id < u64_mod
    → counter_at (apply s e).blocked_queries_by_source_id id
      ≡ add_u64 (counter_at s.blocked_queries_by_source_id id) (if is_blocked_by id e then 1 else 0)
unfolding methods
apply-source id range s (blocked_by k) w h =
    ground (arith, counter_at-modify s.blocked_queries_by_source_id k id 1 (rw (w.by_source) range))
apply-source id range s e w h = ground arith

pub apply-replies :
    (i : ℕ)
    → i < upstreams
    → (s : StatsCollector) (e : Event) → IsWide s
    → counter_at s.upstream_count i < u64_mod
    → counter_at (apply s e).upstream_count i
      ≡ add_u64 (counter_at s.upstream_count i) (if is_latency_of i e then 1 else 0)
unfolding methods
apply-replies i range s (latency k ms) w h =
    ground (arith, counter_at-modify s.upstream_count k i 1 (rw (w.replies) range))
apply-replies i range s e w h = ground arith

pub apply-times :
    (i : ℕ)
    → i < upstreams
    → (s : StatsCollector) (e : Event) → IsWide s
    → counter_at s.upstream_total_ms i < u64_mod
    → counter_at (apply s e).upstream_total_ms i
      ≡ add_u64 (counter_at s.upstream_total_ms i) (milliseconds_of i e)
unfolding methods
apply-times i range s (latency k ms) w h =
    ground (arith, counter_at-modify s.upstream_total_ms k i ms (rw (w.times) range))
apply-times i range s e w h = ground arith

pub counter_at-replicate : (n i : ℕ) → counter_at (replicate n 0) i ≡ 0
counter_at-replicate zero i = refl
counter_at-replicate (suc n) zero = refl
counter_at-replicate (suc n) (suc i) = counter_at-replicate n i
