-- ===== src/Server/Caching.antt =====
-- What the caching of an answer in src/server/dns_request_handler.rs changes, and when it panics.
use ad_nope.Prelude.{
  ℕ, ◌≤◌, ◌≡◌, refl, Bool, true, false, Outcome, returns, panics, Result, ok, err, ltb, arith,
  if◌then◌else◌,
}
use ad_nope.Config.{Config}
use ad_nope.Dns.{type_eq}
use ad_nope.Resolver.{Answer}
use ad_nope.Server.Interfaces.{DnsResolver, CacheLibrary, Key}
use ad_nope.Server.Cache.{Server, entry_at, served_records, cache_answer}

module _ (dns : DnsResolver) (moka : CacheLibrary) where
  abbrev IsStored : Server dns moka → Server dns moka → Type 0
  IsStored s t = (store : moka.Store) × (t ≡ record s { cache = store })

  if-IsStored :
      {A : Type 0} (b : Bool) (x y : Outcome A × Server dns moka) (s : Server dns moka)
      → IsStored s x.1
      → IsStored s y.1
      → IsStored s (if b then x else y).1
  if-IsStored true x y s p q = p
  if-IsStored false x y s p q = q

  -- Only the cache may change.
  pub cache_answer-IsStored :
      (config : Config) (now : ℕ) (key : Key) (r : Result Answer) (s : Server dns moka)
      → IsStored s (cache_answer dns moka config now key r s).1
  unfolding cache_answer
  cache_answer-IsStored config now key (ok (records, upstream)) s =
      if-IsStored
        (ltb moka.max_instant (entry_at config now (served_records config records)).stale_until)
        (panics, s) _ s (s.cache, refl) (_, refl)
  cache_answer-IsStored config now key (err e) s = (s.cache, refl)

  -- The entry of an answer ends no later than the platform's instants.
  abbrev pub Fits : Config → ℕ → Result Answer → Type 0
  Fits config now (ok (records, upstream)) =
      (entry_at config now (served_records config records)).stale_until ≤ moka.max_instant
  Fits config now (err e) = Unit

  -- An answer whose entry fits is returned, without the records that are filtered.
  pub cache_answer-returns :
      (config : Config) (now : ℕ) (key : Key) (r : Result Answer) (s : Server dns moka)
      → Fits config now r
      → (r' : Result Answer) × ((cache_answer dns moka config now key r s).0 ≡ returns r')
  unfolding cache_answer
  cache_answer-returns config now key (ok (records, upstream)) s fits =
      (ok (served_records config records, upstream), ground arith)
  cache_answer-returns config now key (err e) s fits = (err e, refl)
