-- ===== src/Server/Filter/Cached.antt =====
-- What `resolve_and_cache` and `check_cache` of src/server/dns_request_handler.rs keep and answer
-- when AAAA records are disabled.
use mathlib.Core.Path.{subst}
use ad_nope.Prelude.{
  ℕ, ◌≡◌, ◌⊎◌, sym, Bool, true, false, String, List, Option, none, some, inl, inr, ltb, returns,
  panics, Outcome, Result, ok, err, All, if◌then◌else◌, ◌==◌, string_eq, pair_eq,
}
use ad_nope.Dns.{RecordType, Record, type_eq}
use ad_nope.Resolver.{Answer}
use ad_nope.Server.Action.{Action, resume_with}
use ad_nope.Server.Interfaces.{DnsResolver, CacheLibrary, NameParser, Key, Entry}
use ad_nope.Server.Cache.{
  Server, served_records, entry_at, freshness, resolve_and_cache, cache_answer, cache_outcome,
}
use ad_nope.Server.Query.{Handler}
use ad_nope.Server.Filter.{HasNoAaaa, without_aaaa-HasNoAaaa, IsHeld}

module _ (dns : DnsResolver) (moka : CacheLibrary) (names : NameParser) where
  -- Neither the cache nor what was sent has an AAAA record.
  pub record IsFiltered (s : Server dns moka) : Type 0 where
    pub held : (k : Key) → IsHeld (moka.get s.cache k).0
    pub clean : All (λ r. HasNoAaaa r.answers) s.sent

  abbrev pub looked_up : ℕ → Option Entry → Option (List Record × Bool × Option ℕ)
  looked_up now found = elim found [ none ↦ none | some e ↦ freshness now e ]

  abbrev pub IsHeldAnswer : Option (List Record × Bool × Option ℕ) → Type 0
  IsHeldAnswer none = Unit
  IsHeldAnswer (some (rs, _, _)) = HasNoAaaa rs

  if-IsHeldAnswer :
      (b : Bool) (o p : Option (List Record × Bool × Option ℕ))
      → IsHeldAnswer o
      → IsHeldAnswer p
      → IsHeldAnswer (if b then o else p)
  if-IsHeldAnswer true o p h i = h
  if-IsHeldAnswer false o p h i = i

  pub looked_up-IsHeld :
      (now : ℕ) (found : Option Entry) → IsHeld found → IsHeldAnswer (looked_up now found)
  unfolding freshness
  looked_up-IsHeld now none h = tt
  looked_up-IsHeld now (some e) h =
      if-IsHeldAnswer (ltb now e.valid_until) _ _ h
        (if-IsHeldAnswer (ltb now e.stale_until) (some (e.records, true, _)) none h tt)

  pub IsHeld-less : (o p : Option Entry) → (o ≡ none) ⊎ (o ≡ p) → IsHeld p → IsHeld o
  IsHeld-less o p (inl e) h = subst IsHeld (sym e) tt
  IsHeld-less o p (inr e) h = subst IsHeld (sym e) h

  if-IsHeld : (b : Bool) (o p : Option Entry) → IsHeld o → IsHeld p → IsHeld (if b then o else p)
  if-IsHeld true o p h i = h
  if-IsHeld false o p h i = i

  insert-IsHeld :
      (store : moka.Store) (key : Key) (e : Entry)
      → HasNoAaaa e.records
      → ((k : Key) → IsHeld (moka.get store k).0)
      → (k : Key) → IsHeld (moka.get (moka.insert store key e) k).0
  insert-IsHeld store key e new old k =
      let p = if key == k then some e else (moka.get store k).0 in
      IsHeld-less (moka.get (moka.insert store key e) k).0 p (moka.get-insert store key k e)
        (if-IsHeld (key == k) (some e) (moka.get store k).0 new (old k))

  module _ (h : Handler) (filtering : h.config.disable_ipv6 ≡ true) where
    pub served_records-HasNoAaaa : (rs : List Record) → HasNoAaaa (served_records h.config rs)
    unfolding served_records
    served_records-HasNoAaaa rs = rw filtering (without_aaaa-HasNoAaaa rs)

    stored-IsFiltered :
        {A : Type 0} (b : Bool) (x y : Outcome A × Server dns moka)
        → IsFiltered x.1
        → IsFiltered y.1
        → IsFiltered (if b then x else y).1
    stored-IsFiltered true x y i j = i
    stored-IsFiltered false x y i j = j

    abbrev pub IsCleanAnswer : Outcome (Result Answer) → Type 0
    IsCleanAnswer panics = Unit
    IsCleanAnswer (returns (err e)) = Unit
    IsCleanAnswer (returns (ok (rs, up))) = HasNoAaaa rs

    stored-IsCleanAnswer :
        (b : Bool) (x y : Outcome (Result Answer) × Server dns moka)
        → IsCleanAnswer x.0
        → IsCleanAnswer y.0
        → IsCleanAnswer (if b then x else y).0
    stored-IsCleanAnswer true x y i j = i
    stored-IsCleanAnswer false x y i j = j

    pub cache_answer-IsFiltered :
        (now : ℕ) (key : Key) (r : Result Answer) (s : Server dns moka)
        → IsFiltered s
        → IsFiltered (cache_answer dns moka h.config now key r s).1
    unfolding cache_answer entry_at
    cache_answer-IsFiltered now key (err e) s i = i
    cache_answer-IsFiltered now key (ok (rs, up)) s i =
        stored-IsFiltered
          (ltb moka.max_instant (entry_at h.config now (served_records h.config rs)).stale_until)
          (panics, s) _ i
          (record {
            held =
                insert-IsHeld s.cache key (entry_at h.config now (served_records h.config rs))
                  (served_records-HasNoAaaa rs) i.held;
            clean = i.clean;
          })

    pub cache_answer-IsCleanAnswer :
        (now : ℕ) (key : Key) (r : Result Answer) (s : Server dns moka)
        → IsCleanAnswer (cache_answer dns moka h.config now key r s).0
    unfolding cache_answer
    cache_answer-IsCleanAnswer now key (err e) s = tt
    cache_answer-IsCleanAnswer now key (ok (rs, up)) s =
        stored-IsCleanAnswer
          (ltb moka.max_instant (entry_at h.config now (served_records h.config rs)).stale_until)
          (panics, s)
          (
            returns (ok (served_records h.config rs, up)),
            record s {
              cache = moka.insert s.cache key (entry_at h.config now (served_records h.config rs));
            },
          )
          tt (served_records-HasNoAaaa rs)

    cache_outcome-IsFiltered :
        (now : ℕ) (key : Key) (o : Outcome (Result Answer)) (s : Server dns moka)
        → IsFiltered s
        → IsCleanAnswer (cache_outcome dns moka h.config now key o s).0
          × IsFiltered (cache_outcome dns moka h.config now key o s).1
    cache_outcome-IsFiltered now key panics s i = (tt, i)
    cache_outcome-IsFiltered now key (returns r) s i =
        (cache_answer-IsCleanAnswer now key r s, cache_answer-IsFiltered now key r s i)

    pub resolve_and_cache-IsFiltered :
        (now : ℕ) (name : String) (qtype : RecordType) (s : Server dns moka)
        → IsFiltered s
        → IsCleanAnswer (resolve_and_cache dns moka h.config now name qtype s).0
          × IsFiltered (resolve_and_cache dns moka h.config now name qtype s).1
    unfolding resolve_and_cache
    resolve_and_cache-IsFiltered now name qtype s i =
        let r = dns.resolve s.resolver s.stats name qtype in
        cache_outcome-IsFiltered now (name, qtype) r.0 (record s { resolver = r.1; stats = r.2 })
          (record { held = i.held; clean = i.clean })

    pub if-IsFiltered :
        (b : Bool) (s t : Server dns moka)
        → IsFiltered s
        → IsFiltered t
        → IsFiltered (if b then s else t)
    if-IsFiltered true s t i j = i
    if-IsFiltered false s t i j = j

    pub choice-IsFiltered :
        {A : Type 0} (b : Bool) (m n : Action (Server dns moka) A) (s : Server dns moka)
        → IsFiltered (m s).1
        → IsFiltered (n s).1
        → IsFiltered ((if b then m else n) s).1
    choice-IsFiltered true m n s i j = i
    choice-IsFiltered false m n s i j = j

    pub pair-IsFiltered :
        {A : Type 0} (b : Bool) (x y : Outcome A × Server dns moka)
        → IsFiltered x.1
        → IsFiltered y.1
        → IsFiltered (if b then x else y).1
    pair-IsFiltered true x y i j = i
    pair-IsFiltered false x y i j = j

    pub bind-IsFiltered :
        {A B : Type 0} (o : Outcome A) (s : Server dns moka) (f : A → Action (Server dns moka) B)
        → IsFiltered s
        → ((r : A) → IsFiltered (f r s).1)
        → IsFiltered (resume_with o s f).1
    bind-IsFiltered (returns r) s f i next = next r
    bind-IsFiltered panics s f i next = i
