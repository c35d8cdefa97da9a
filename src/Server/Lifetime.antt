-- ===== src/Server/Lifetime.antt =====
-- How long `resolve_and_cache` keeps an answer and `check_cache` serves it
-- (src/server/dns_request_handler.rs).
use ad_nope.Prelude.{
  if◌then◌else◌, ltb, ℕ, ◌+◌, ◌-◌, ◌/◌, ◌≤◌, ◌<◌, ◌≡◌, ◌↔◌, ◌⊎◌, refl, ap, sym, ◌∙◌, Bool, true,
  false, String, List, [], ◌∷◌, Option, none, some, inl, inr, returns, panics, Outcome, Result, ok,
  err, min, max, get_or, ==_refl, All, Elem, here, there, arith, pair_eq, string_eq,
}
use mathlib.Core.Option
use mathlib.Core.Path.{subst}
use ad_nope.Config.{Config}
use ad_nope.Dns.{RecordType, Record, type_eq}
use ad_nope.Engine.State.{nanos_per_sec, from_secs}
use ad_nope.Resolver.{Answer}
use ad_nope.Server.Interfaces.{DnsResolver, CacheLibrary, Key, Entry}
use ad_nope.Server.Cache.{
  Server, min_ttl_of, served_records, effective_ttl, entry_at, freshness, cache_answer,
  resolve_and_cache, check_cache, cache_outcome,
}

-- The least time to live of some records.
record IsLeast (records : List Record) (m : ℕ) : Type 0 where
  pub bound : All (λ r. m ≤ r.ttl) records
  pub reached : (r : Record) × Elem r records × (m ≡ r.ttl)

All-weaken :
    (m n : ℕ) (rs : List Record) → m ≤ n → All (λ r. n ≤ r.ttl) rs → All (λ r. m ≤ r.ttl) rs
All-weaken m n [] h a = tt
All-weaken m n (r ∷ rs) h a = (omega arith, All-weaken m n rs h a.1)

min_cases : (m n : ℕ) → ((min m n ≡ m) × (m ≤ n)) ⊎ ((min m n ≡ n) × (n ≤ m))
min_cases m n = ground arith

IsLeast-cons :
    (r : Record) (rs : List Record) (m : ℕ) → IsLeast rs m → IsLeast (r ∷ rs) (min r.ttl m)
IsLeast-cons r rs m least = record {
  bound = (omega arith, All-weaken (min r.ttl m) m rs (omega arith) least.bound);
  reached = elim (min_cases r.ttl m) [
    | inl (e, _) ↦ (r, here refl, e)
    | inr (e, _) ↦ let (x, at, f) = least.reached in (x, there at, e ∙ f)
  ];
}

min_ttl_of-IsLeast :
    (r : Record) (rs : List Record) → (m : ℕ) × (min_ttl_of (r ∷ rs) ≡ some m) × IsLeast (r ∷ rs) m
unfolding min_ttl_of
min_ttl_of-IsLeast r [] =
    (r.ttl, refl, record { bound = (omega arith, tt); reached = (r, here refl, refl) })
min_ttl_of-IsLeast r (x ∷ rs) =
    let (m, e, least) = min_ttl_of-IsLeast x rs in
    (
      min r.ttl m,
      ap (λ o. some (get_or (Option.map (λ t. min r.ttl t) o) r.ttl)) e,
      IsLeast-cons r (x ∷ rs) m least,
    )

capped :
    (least floor : ℕ) (rs : List Record)
    → All (λ r. least ≤ r.ttl) rs
    → All (λ r. max least floor ≤ max r.ttl floor) rs
capped least floor [] h = tt
capped least floor (r ∷ rs) h = (omega arith, capped least floor rs h.1)

max_cases : (m n : ℕ) → (max m n ≡ n) ⊎ (max m n ≡ m)
max_cases m n = ground arith

effective_ttl_nil : (config : Config) → effective_ttl config [] ≡ config.cache.min_ttl
unfolding effective_ttl
effective_ttl_nil config = refl

effective_ttl_least :
    (config : Config) (r : Record) (rs : List Record) (m : ℕ)
    → min_ttl_of (r ∷ rs) ≡ some m
    → effective_ttl config (r ∷ rs) ≡ max m config.cache.min_ttl
unfolding effective_ttl
effective_ttl_least config r rs m e = ap (λ o. max (get_or o 300) config.cache.min_ttl) e

abbrev IsKept : ℕ → List Record → ℕ → Type 0
IsKept floor records t =
    (floor ≤ t)
    × All (λ r. t ≤ max r.ttl floor) records
    × ((t ≡ floor) ⊎ ((r : Record) × Elem r records × (t ≡ r.ttl)))

-- The seconds for which records are kept are at least the configured minimum, exceed the time to
-- live of no record unless the minimum does, and are the minimum or the time to live of a record.
pub effective_ttl-bounds :
    (config : Config) (records : List Record)
    → (config.cache.min_ttl ≤ effective_ttl config records)
      × All (λ r. effective_ttl config records ≤ max r.ttl config.cache.min_ttl) records
      × ((effective_ttl config records ≡ config.cache.min_ttl)
          ⊎ ((r : Record) × Elem r records × (effective_ttl config records ≡ r.ttl)))
effective_ttl-bounds config [] = rw (effective_ttl_nil config) (omega arith, tt, inl refl)
effective_ttl-bounds config (r ∷ rs) =
    let floor = config.cache.min_ttl in
    let (m, e, least) = min_ttl_of-IsLeast r rs in
    subst (IsKept floor (r ∷ rs)) (sym (effective_ttl_least config r rs m e)) (
      omega arith,
      capped m floor (r ∷ rs) least.bound,
      elim (max_cases m floor) [
        | inl f ↦ inl f
        | inr f ↦ let (x, at, g) = least.reached in inr (x, at, f ∙ g)
      ],
    )

-- An entry is served as fresh before its validity ends, as stale from then on until the end of its
-- grace, and never after that. What is served are the entry's records, with the whole seconds that
-- remain of its validity.
pub freshness_iff :
    (now : ℕ) (e : Entry) (records : List Record) (is_stale : Bool) (ttl : Option ℕ)
    → (freshness now e ≡ some (records, is_stale, ttl)) ↔ (
        (records ≡ e.records)
        × (ttl ≡ some ((e.valid_until - now) / nanos_per_sec))
        × (((is_stale ≡ false) × (now < e.valid_until))
            ⊎ ((is_stale ≡ true) × (e.valid_until ≤ now) × (now < e.stale_until))))
unfolding freshness
freshness_iff now e records is_stale ttl = (ground arith, ground arith)

-- What `check_cache` finds at the instant `now` of records whose validity ends at `valid` and whose
-- grace ends at `end`.
abbrev pub IsWindowed : List Record → ℕ → ℕ → ℕ → Option (List Record × Bool × Option ℕ) → Type 0
IsWindowed records valid end now found =
    ((now < valid) × (found ≡ some (records, false, some ((valid - now) / nanos_per_sec))))
    ⊎ (((valid ≤ now) × (now < end) × (found ≡ some (records, true, some 0)))
        ⊎ ((end ≤ now) × (found ≡ none)))

freshness-IsWindowed :
    (now : ℕ) (e : Entry)
    → e.valid_until ≤ e.stale_until
    → IsWindowed e.records e.valid_until e.stale_until now (freshness now e)
unfolding freshness
freshness-IsWindowed now e order = ground arith

entry_at-IsWindowed :
    (config : Config) (now later : ℕ) (records : List Record)
    → IsWindowed records
        (now + from_secs (effective_ttl config records))
        (now + from_secs (effective_ttl config records) + from_secs config.cache.grace_period_sec)
        later
        (freshness later (entry_at config now records))
unfolding entry_at
entry_at-IsWindowed config now later records =
    freshness-IsWindowed later (entry_at config now records) (omega arith)

module _ (dns : DnsResolver) (moka : CacheLibrary) where
  found_after :
      (store : moka.Store) (k : Key) (e : Entry)
      → ((moka.get (moka.insert store k e) k).0 ≡ none)
        ⊎ ((moka.get (moka.insert store k e) k).0 ≡ some e)
  found_after store k e = elim (moka.get-insert store k k e) [
    | inl gone ↦ inl gone
    | inr kept ↦ inr (rw (==_refl k) at kept)
  ]

  inserted :
      (b : Bool) (r : Result Answer) (s u : Server dns moka) (r' : Result Answer)
      (t : Server dns moka)
      → ◌≡◌ {A = Outcome (Result Answer) × Server dns moka}
          (if b then (panics, s) else (returns r, u))
          (returns r', t)
      → (r ≡ r') × (u ≡ t)
  inserted true r s u r' t h = absurd (cc h)
  inserted false r s u r' t h = (cc h, cc h)

  cache_outcome-ok :
      (config : Config) (now : ℕ) (key : Key) (o : Outcome (Result Answer)) (s t : Server dns moka)
      (records : List Record) (upstream : String)
      → cache_outcome dns moka config now key o s ≡ (returns (ok (records, upstream)), t)
      → (raw : List Record) × (records ≡ served_records config raw)
        × (t.cache ≡ moka.insert s.cache key (entry_at config now records))
  unfolding cache_answer
  cache_outcome-ok config now key panics s t records upstream h = ground arith
  cache_outcome-ok config now key (returns (err e)) s t records upstream h = ground arith
  cache_outcome-ok config now key (returns (ok (raw, up))) s t records upstream h =
      let kept = served_records config raw in
      let stored =
        inserted (ltb moka.max_instant (entry_at config now kept).stale_until) (ok (kept, up)) s
          (record s { cache = moka.insert s.cache key (entry_at config now kept) })
          (ok (records, upstream)) t h in
      let e : kept ≡ records = ground arith in
      (
        raw,
        sym e,
        ap (λ (u : Server dns moka). u.cache) (sym stored.1)
            ∙ ap (λ rs. moka.insert s.cache key (entry_at config now rs)) e,
      )

  resolve_and_cache-ok :
      (config : Config) (now : ℕ) (name : String) (qtype : RecordType) (s t : Server dns moka)
      (records : List Record) (upstream : String)
      → resolve_and_cache dns moka config now name qtype s ≡ (returns (ok (records, upstream)), t)
      → (raw : List Record) × (records ≡ served_records config raw)
        × (t.cache ≡ moka.insert s.cache (name, qtype) (entry_at config now records))
  unfolding resolve_and_cache
  resolve_and_cache-ok config now name qtype s t records upstream h =
      let r = dns.resolve s.resolver s.stats name qtype in
      cache_outcome-ok config now (name, qtype) r.0 (record s { resolver = r.1; stats = r.2 }) t
        records upstream h

  check_cache-none :
      (later : ℕ) (name : String) (qtype : RecordType) (t : Server dns moka)
      → (moka.get t.cache (name, qtype)).0 ≡ none
      → (check_cache dns moka later name qtype t).0 ≡ none
  unfolding check_cache
  check_cache-none later name qtype t h = rw h refl

  check_cache-some :
      (later : ℕ) (name : String) (qtype : RecordType) (t : Server dns moka) (e : Entry)
      → (moka.get t.cache (name, qtype)).0 ≡ some e
      → (check_cache dns moka later name qtype t).0 ≡ freshness later e
  unfolding check_cache
  check_cache-some later name qtype t e h = rw h refl

  -- After a resolution that succeeds, either the cache holds no entry for the same query any more,
  -- and `check_cache` finds nothing, or it decides by the time: before the end of the answer's time to
  -- live, counted from its caching, it finds the records that were answered, as fresh, with the whole
  -- seconds that remain; from then on and before the end of the configured grace the same records, as
  -- stale, with no second remaining; and from the end of the grace on nothing.
  pub check_cache-resolve_and_cache :
      (config : Config) (now later : ℕ) (name : String) (qtype : RecordType) (s t : Server dns moka)
      (records : List Record) (upstream : String)
      → resolve_and_cache dns moka config now name qtype s ≡ (returns (ok (records, upstream)), t)
      → (((moka.get t.cache (name, qtype)).0 ≡ none)
          × ((check_cache dns moka later name qtype t).0 ≡ none))
        ⊎ IsWindowed records
            (now + from_secs (effective_ttl config records))
            (now
              + from_secs (effective_ttl config records)
              + from_secs config.cache.grace_period_sec)
            later
            (check_cache dns moka later name qtype t).0
  check_cache-resolve_and_cache config now later name qtype s t records upstream h =
      let key : Key = (name, qtype) in
      let (_, _, stored) = resolve_and_cache-ok config now name qtype s t records upstream h in
      elim (found_after s.cache key (entry_at config now records)) [
        | inl gone ↦
            let absent = ap (λ c. (moka.get c key).0) stored ∙ gone in
            inl (absent, check_cache-none later name qtype t absent)
        | inr kept ↦ inr (
            subst
              (IsWindowed records (now + from_secs (effective_ttl config records))
                (now
                  + from_secs (effective_ttl config records)
                  + from_secs config.cache.grace_period_sec)
                later)
              (sym (
                check_cache-some later name qtype t (entry_at config now records)
                  (ap (λ c. (moka.get c key).0) stored ∙ kept)))
              (entry_at-IsWindowed config now later records))
      ]
