-- ===== src/Db/Retention.antt =====
-- Which rows `prune_logs` of src/db.rs keeps.
use ad_nope.Prelude.{
  ℕ, ◌+◌, ◌*◌, ◌%◌, ◌^◌, ◌≤◌, ◌<◌, ◌≡◌, ◌↔◌, refl, ap, sym, ◌∙◌, true, false, Bool-cases, some,
  List, [], ◌∷◌, String, All, All-map, Elem, here, there, ltb, arith, inl, inr, if◌then◌else◌,
}
use mathlib.Core.Path.{subst}
use ad_nope.Prelude.Words.{u64_mod}
use ad_nope.Db.Schema.{rows_of}
use ad_nope.Db.{Row, lt_i64, cutoff_at, delete_before, prune_logs}

pub lt_i64-cutoff_at :
    (t now hours : ℕ)
    → t < 2 ^ 63
    → now < 2 ^ 63
    → hours * 3600 < 2 ^ 63
    → lt_i64 t (cutoff_at now hours) ≡ ltb (t + hours * 3600) now
unfolding cutoff_at
lt_i64-cutoff_at t now hours ht hn hh = ground arith

lt_i64-after :
    (t now hours : ℕ)
    → 2 ^ 63 ≤ hours * 3600 % u64_mod
    → now + u64_mod < 2 ^ 63 + hours * 3600 % u64_mod
    → t ≤ now
    → lt_i64 t (cutoff_at now hours) ≡ true
unfolding cutoff_at
lt_i64-after t now hours negative small h = ground arith

module _ (cutoff : ℕ) where
  Elem-kept :
      (r x : Row) (rows rest : List Row)
      → (Elem r rest → Elem r rows × (lt_i64 r.timestamp cutoff ≡ false))
      → Elem r (x ∷ rest)
      → lt_i64 x.timestamp cutoff ≡ false
      → Elem r (x ∷ rows) × (lt_i64 r.timestamp cutoff ≡ false)
  Elem-kept r x rows rest ih (here e) new = (here e, ap (λ y. lt_i64 y.timestamp cutoff) e ∙ new)
  Elem-kept r x rows rest ih (there k) new = let m = ih k in (there m.0, m.1)

  Elem-delete_before :
      (r : Row) (rows : List Row)
      → Elem r (delete_before cutoff rows)
      → Elem r rows × (lt_i64 r.timestamp cutoff ≡ false)
  unfolding delete_before
  Elem-delete_before r [] h = elim h [ ]
  Elem-delete_before r (x ∷ rows) h = elim (Bool-cases (lt_i64 x.timestamp cutoff)) [
    | inl old ↦ let k = Elem-delete_before r rows (rw old at h) in (there k.0, k.1)
    | inr new ↦
        Elem-kept r x rows (delete_before cutoff rows) (Elem-delete_before r rows) (rw new at h) new
  ]

  delete_before-Elem :
      (r : Row) (rows : List Row)
      → Elem r rows
      → lt_i64 r.timestamp cutoff ≡ false
      → Elem r (delete_before cutoff rows)
  unfolding delete_before
  delete_before-Elem r [] h new = elim h [ ]
  delete_before-Elem r (x ∷ rows) (here e) new =
      rw ((ap (λ y. lt_i64 y.timestamp cutoff) (sym e) ∙ new), if◌then◌else◌) (here e)
  delete_before-Elem r (x ∷ rows) (there k) new = elim (Bool-cases (lt_i64 x.timestamp cutoff)) [
    | inl old ↦ rw old (delete_before-Elem r rows k new)
    | inr young ↦ rw young (there (delete_before-Elem r rows k new))
  ]

-- A table whose rows and a clock that are not negative as `i64`.
abbrev pub AreTimes : List Row → Type 0
AreTimes = All (λ r. r.timestamp < 2 ^ 63)

AreTimes-Elem : (r : Row) (rows : List Row) → AreTimes rows → Elem r rows → r.timestamp < 2 ^ 63
AreTimes-Elem r (x ∷ rows) h (here e) = subst (λ y. y.timestamp < 2 ^ 63) (sym e) h.0
AreTimes-Elem r (x ∷ rows) h (there k) = AreTimes-Elem r rows h.1 k
AreTimes-Elem r [] h k = elim k [ ]

-- The rows that remain.
abbrev pub pruned_rows : ℕ → ℕ → List Row → List String → List Row
pruned_rows now hours rows indices =
    rows_of
      (prune_logs false now hours (record {
        query_logs = some (record { has_ttl_remaining = true; rows = rows });
        indices = indices;
      })).1.query_logs

-- If the seconds of the retention are below 2^63, pruning keeps exactly the rows that are not older
-- than the retention; a retention that is longer than the time since 1970 keeps all.
pub Elem-prune_logs :
    (now hours : ℕ) (rows : List Row) (indices : List String) (r : Row)
    → AreTimes rows
    → now < 2 ^ 63
    → hours * 3600 < 2 ^ 63
    → Elem r (pruned_rows now hours rows indices)
      ↔ (Elem r rows × (now ≤ r.timestamp + hours * 3600))
unfolding prune_logs
Elem-prune_logs now hours rows indices r times hn hh = (
  λ k.
      let (at, young) = Elem-delete_before (cutoff_at now hours) r rows k in
      let e = lt_i64-cutoff_at r.timestamp now hours (AreTimes-Elem r rows times at) hn hh in
      (at, ground arith),
  λ (at, young).
      let e = lt_i64-cutoff_at r.timestamp now hours (AreTimes-Elem r rows times at) hn hh in
      delete_before-Elem (cutoff_at now hours) r rows at (ground arith),
)

delete_before-nil :
    (cutoff : ℕ) (rows : List Row)
    → All (λ r. lt_i64 r.timestamp cutoff ≡ true) rows
    → delete_before cutoff rows ≡ []
unfolding delete_before
delete_before-nil cutoff [] h = refl
delete_before-nil cutoff (r ∷ rows) h = rw (h.0, if◌then◌else◌) (delete_before-nil cutoff rows h.1)

-- If the seconds of the retention reach 2^63, and the cast to `i64` makes them negative, so that the
-- cutoff lies after the clock, then pruning deletes every row that is not from the future.
pub prune_logs-nil :
    (now hours : ℕ) (rows : List Row) (indices : List String)
    → 2 ^ 63 ≤ hours * 3600 % u64_mod
    → now + u64_mod < 2 ^ 63 + hours * 3600 % u64_mod
    → All (λ r. r.timestamp ≤ now) rows
    → pruned_rows now hours rows indices ≡ []
unfolding prune_logs
prune_logs-nil now hours rows indices negative small past =
    delete_before-nil (cutoff_at now hours) rows (
      All-map (λ r. r.timestamp ≤ now) (λ r. lt_i64 r.timestamp (cutoff_at now hours) ≡ true)
        (λ r h. lt_i64-after r.timestamp now hours negative small h) rows past)
