-- ===== src/Proxy/Agree.antt =====
-- `lookup` of node/proxy/proxy.go against `Lookup` of node/dnsfe/router.go.
use smart_dns_proxy.Prelude.{
  ◌≡◌, refl, ap, ◌∙◌, Option, none, some, List, [], ◌∷◌, map, arith, nat_eq, Bytes, bytes_eq,
}
use smart_dns_proxy.Prelude.Int.{ℤ}
use smart_dns_proxy.Platform.{Platform}
use smart_dns_proxy.Netip.{Prefix}
use smart_dns_proxy.Domainset.Matcher.{specificity}
use smart_dns_proxy.Domainset.Matcher.{compile as compile_set}
use smart_dns_proxy.Model.{Service, NodeConfig}
use smart_dns_proxy.Router
use smart_dns_proxy.Router.{Route}
use smart_dns_proxy.Selector.{Float}
use smart_dns_proxy.Proxy.{SvcRoute, routes_of, apply, Best, no_best, consider, lookup_loop, lookup}

abbrev pub svc_of : {F : Type 0} → Option (SvcRoute F) → Option Service
svc_of none = none
svc_of (some r) = some r.svc

abbrev as_route : {F : Type 0} → SvcRoute F → Route
as_route r = record { svc = r.svc; matcher = r.matcher }

abbrev as_best : {F : Type 0} → Best F → Router.Best
as_best b = record { best = svc_of b.best; spec = b.spec; prio = b.prio }

consider-agree :
    {F : Type 0} (r : SvcRoute F) (spec : ℤ) (b : Best F)
    → as_best (consider r spec b) ≡ Router.consider r.svc spec (as_best b)
unfolding consider Router.consider
consider-agree r spec b = ground arith

lookup_loop-agree :
    {F : Type 0} (pl : Platform) (host : Bytes) (routes : List (SvcRoute F)) (b : Best F)
    → as_best (lookup_loop pl host routes b)
      ≡ Router.lookup_loop pl host (map as_route routes) (as_best b)
unfolding lookup_loop Router.lookup_loop
lookup_loop-agree pl host [] b = refl
lookup_loop-agree pl host (r ∷ routes) b =
    let spec = specificity pl (some r.matcher) host in
    lookup_loop-agree pl host routes (consider r spec b)
    ∙ ap (λ c. Router.lookup_loop pl host (map as_route routes) c) (consider-agree r spec b)

module _ {F : Type 0} (fl : Float F) where
  routes_of-agree :
      (pl : Platform) (prev : List (SvcRoute F)) (services : List Service)
      → map as_route (routes_of fl pl prev services) ≡ Router.routes_of pl services
  unfolding routes_of Router.routes_of
  routes_of-agree pl prev [] = refl
  routes_of-agree pl prev (s ∷ services) =
      ap (λ (l : List Route). record { svc = s; matcher = compile_set pl s.rules } ∷ l)
        (routes_of-agree pl prev services)

  -- The proxy and the DNS server of one config agree on the service of every name, whatever the
  -- proxy's pools are.
  pub lookup-agree :
      (pl : Platform) (split_host : Bytes → Option Bytes) (parse : Bytes → Option Prefix)
      (prev : List (SvcRoute F)) (backend : Bytes) (c : NodeConfig) (host : Bytes)
      → svc_of (lookup pl (apply fl pl split_host prev backend c) host)
        ≡ Router.lookup pl (Router.apply pl parse c) host
  unfolding lookup apply Router.lookup Router.apply
  lookup-agree pl split_host parse prev backend c host =
      ap (λ (b : Router.Best). b.best)
        (lookup_loop-agree pl host (routes_of fl pl prev c.services) no_best)
      ∙ ap (λ rs. (Router.lookup_loop pl host rs Router.no_best).best)
          (routes_of-agree pl prev c.services)
