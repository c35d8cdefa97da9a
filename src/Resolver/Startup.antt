-- ===== src/Resolver/Startup.antt =====
-- The resolver that `create_resolver` of src/resolver/mod.rs makes.
use ad_nope.Prelude.{
  ◌⊎◌, inl, inr, ◌<◌, ◌≡◌, refl, ap, sym, ◌∙◌, String, List, [], ◌∷◌, Result, ok, err, length,
  arith, string_eq, if◌then◌else◌,
}
use mathlib.Core.Path.{subst}
use ad_nope.Config.{Config}
use ad_nope.Resolver.{Upstream}
use ad_nope.Resolver.Create.{
  Environment, Resolver, by_policy, choose, and_then, create_resolver, create_configured_upstreams,
  create_default_upstream, is_nil, upstreams_of,
}

upstreams_of-by_policy :
    (policy : String) (us : List Upstream) → upstreams_of (by_policy policy us) ≡ us
unfolding by_policy
upstreams_of-by_policy policy us = ground arith

abbrev upstreams_in : Result Resolver → List Upstream
upstreams_in (ok r) = upstreams_of r
upstreams_in (err e) = []

choose-upstreams_of :
    (policy : String) (us : List Upstream) (r : Resolver)
    → choose policy us ≡ ok r
    → (upstreams_of r ≡ us) × (0 < length us)
unfolding choose
choose-upstreams_of policy [] r h = ground arith
choose-upstreams_of policy (u ∷ []) r h = (sym (ap upstreams_in h), omega arith)
choose-upstreams_of policy (u ∷ v ∷ us) r h =
    (sym (ap upstreams_in h) ∙ upstreams_of-by_policy policy (u ∷ v ∷ us), omega arith)

-- Where the upstreams of a resolver come from.
abbrev Origin : Environment → Config → List String → Resolver → Type 0
Origin env config servers r =
    ((servers ≡ [])
      × (u : Upstream) × (create_default_upstream env config ≡ ok u)
      × (upstreams_of r ≡ u ∷ []))
    ⊎ (upstreams_of r ≡ create_configured_upstreams env config servers)

and_then-ok :
    (policy : String) (d : Result Upstream) (r : Resolver)
    → and_then d (choose policy) ≡ ok r
    → (u : Upstream) × (d ≡ ok u) × (upstreams_of r ≡ u ∷ []) × (0 < length (upstreams_of r))
and_then-ok policy (err e) r h = ground arith
and_then-ok policy (ok u) r h =
    let (e, _) = choose-upstreams_of policy (u ∷ []) r h in
    (u, refl, e, subst (λ us. 0 < length us) (sym e) (omega arith))

create_from :
    (env : Environment) (config : Config) (servers : List String) (r : Resolver)
    → (if is_nil servers
        then and_then (create_default_upstream env config) (choose config.resolution_policy)
        else choose config.resolution_policy (create_configured_upstreams env config servers))
      ≡ ok r
    → (0 < length (upstreams_of r)) × Origin env config servers r
create_from env config [] r h =
    let (u, d, e, pos) =
      and_then-ok config.resolution_policy (create_default_upstream env config) r h in
    (pos, inl (refl, u, d, e))
create_from env config (url ∷ servers) r h =
    let (e, pos) =
      choose-upstreams_of config.resolution_policy
        (create_configured_upstreams env config (url ∷ servers)) r h in
    (subst (λ us. 0 < length us) (sym e) pos, inr e)

pub create_resolver-upstreams_of :
    (env : Environment) (config : Config) (r : Resolver)
    → create_resolver env config ≡ ok r
    → (0 < length (upstreams_of r))
      × (((config.upstream_servers ≡ [])
            × (u : Upstream) × (create_default_upstream env config ≡ ok u)
            × (upstreams_of r ≡ u ∷ []))
          ⊎ (upstreams_of r ≡ create_configured_upstreams env config config.upstream_servers))
unfolding create_resolver
create_resolver-upstreams_of env config r h = create_from env config config.upstream_servers r h
