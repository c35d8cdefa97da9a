-- ===== src/Server/Expiry.antt =====
-- The latest end of what src/server/dns_request_handler.rs caches, for times to live of 32 bits.
use ad_nope.Prelude.{
  ℕ, ◌+◌, ◌-◌, ◌^◌, ◌≤◌, ◌<◌, inl, inr, Bool, true, false, List, [], ◌∷◌, Result, ok, err, max, All,
  Elem, here, there, arith, if◌then◌else◌, ◌==◌,
}
use ad_nope.Config.{Config}
use ad_nope.Dns.{Record, aaaa, record_type, type_eq}
use ad_nope.Engine.State.{from_secs}
use ad_nope.Resolver.{Answer}
use ad_nope.Server.Interfaces.{DnsResolver, CacheLibrary}
use ad_nope.Server.Cache.{effective_ttl, entry_at, served_records, without_aaaa}
use ad_nope.Server.Lifetime.{effective_ttl-bounds}
use ad_nope.Server.Caching.{Fits}

-- The times to live of a lookup's records, and of an answer's, are `u32`.
abbrev pub IsU32 : Result (List Record) → Type 0
IsU32 (ok records) = All (λ r. r.ttl < 2 ^ 32) records
IsU32 (err e) = Unit

abbrev pub HasU32 : Result Answer → Type 0
HasU32 (ok (records, upstream)) = All (λ r. r.ttl < 2 ^ 32) records
HasU32 (err e) = Unit

-- The end of the grace of an answer with the longest time to live.
abbrev pub latest_end : Config → ℕ → ℕ
latest_end config now =
    now
    + from_secs (max (2 ^ 32 - 1) config.cache.min_ttl)
    + from_secs config.cache.grace_period_sec

Elem-ttl :
    (r : Record) (rs : List Record) → Elem r rs → All (λ x. x.ttl < 2 ^ 32) rs → r.ttl < 2 ^ 32
Elem-ttl r [] at h = elim at [ ]
Elem-ttl r (x ∷ xs) (here e) h = rw e h.0
Elem-ttl r (x ∷ rs) (there at) h = Elem-ttl r rs at h.1

if-All :
    (b : Bool) (xs ys : List Record)
    → All (λ x. x.ttl < 2 ^ 32) xs
    → All (λ x. x.ttl < 2 ^ 32) ys
    → All (λ x. x.ttl < 2 ^ 32) (if b then xs else ys)
if-All true xs ys h i = h
if-All false xs ys h i = i

without_aaaa-All :
    (rs : List Record) → All (λ x. x.ttl < 2 ^ 32) rs → All (λ x. x.ttl < 2 ^ 32) (without_aaaa rs)
unfolding without_aaaa
without_aaaa-All [] h = tt
without_aaaa-All (r ∷ rs) h =
    if-All (record_type r == aaaa) _ (r ∷ without_aaaa rs) (without_aaaa-All rs h.1)
      (h.0, without_aaaa-All rs h.1)

served_records-All :
    (config : Config) (rs : List Record)
    → All (λ x. x.ttl < 2 ^ 32) rs
    → All (λ x. x.ttl < 2 ^ 32) (served_records config rs)
unfolding served_records
served_records-All config rs h = if-All config.disable_ipv6 _ rs (without_aaaa-All rs h) h

effective_ttl-IsBounded :
    (config : Config) (rs : List Record)
    → All (λ x. x.ttl < 2 ^ 32) rs
    → effective_ttl config rs ≤ max (2 ^ 32 - 1) config.cache.min_ttl
effective_ttl-IsBounded config rs h = elim (effective_ttl-bounds config rs).2 [
  | inl e ↦ omega (arith, e)
  | inr (r, at, e) ↦ omega (arith, e, Elem-ttl r rs at h)
]

-- Every answer fits where the longest does.
pub HasU32-Fits :
    (dns : DnsResolver) (moka : CacheLibrary) (config : Config) (now : ℕ) (r : Result Answer)
    → HasU32 r
    → latest_end config now ≤ moka.max_instant
    → Fits dns moka config now r
unfolding entry_at
HasU32-Fits dns moka config now (err e) h room = tt
HasU32-Fits dns moka config now (ok (rs, up)) h room = omega (
  arith,
  effective_ttl-IsBounded config (served_records config rs) (served_records-All config rs h),
)
