-- ===== src/Proxy.antt =====
-- node/proxy/proxy.go: the SNI proxy of an ingress node. `handle` is one session from its accept to
-- the splice. The targets of one pool stand on different nodes, so that what a dial observes is
-- written back by the node's ID. Whether a dial or a write succeeds is an argument.
pub mod Session
pub mod Agree
pub mod Guard
pub mod Path
use smart_dns_proxy.Prelude.{
  ℕ, zero, suc, ◌+◌, ◌-◌, ◌*◌, ◌/◌, ◌%◌, ◌^◌, ◌≤◌, ◌<◌, ◌≡◌, refl, sym, ap, ◌∙◌, ◌≢◌, ◌↔◌, ◌⊎◌, inl,
  inr, Bool, true, false, not, ◌&&◌, ◌||◌, Option, none, some, List, [], ◌∷◌, ◌++◌, map, arith, ltb,
  leb, ◌==◌, if◌then◌else◌, ltb→lt, ltb→le, lt→ltb, leb→le, leb→lt, ==_iff, tests, Bool-cases,
  Option-cases, eq_of_iff, is_some, Eq, nat_eq, beq_refl, length, is_empty, get_or, take, drop,
  keep, any, all, length-append, take-append-drop, take-append, drop-append, length-take,
  length-drop, length-keep-le, All, All-append, All-keep, elem, nodup, elem-append, elem-keep,
  All-elem, elem-All, switch, switch-All, Bytes, codes, bytes_beq, bytes_beq_refl, bytes_beq_iff,
  bytes_eq, bytes_lt, bytes_lt_irrefl, bytes_lt_asymm, bytes_lt_trans, bytes_lt_total, Result, ok,
  err, ◌>>=◌, or_else, >>=-eq-ok, ok-inj, guard-ok,
}
use smart_dns_proxy.Prelude.Int.{ℤ, pos, negsuc, ltz, eqz}
use smart_dns_proxy.Platform.{Platform}
use smart_dns_proxy.Domainset.Matcher.{Matcher, specificity}
use smart_dns_proxy.Domainset.Matcher.{compile as compile_set}
use smart_dns_proxy.Model.{EgressPolicy, Service, IngressConfig, NodeConfig}
use smart_dns_proxy.Selector.{
  Float, Target, Pool, new_pool, order, thresholds, Attempt, DialResult, dial_loop,
}

pub record SvcRoute (F : Type 0) : Type 0 where
  pub svc : Service
  pub matcher : Matcher
  pub pool : Pool F

pub record Proxy (F : Type 0) : Type 0 where
  pub routes : List (SvcRoute F)
  pub cfg : NodeConfig
  pub max_sess : ℕ
  pub doh_host : Bytes
  pub doh_backend : Bytes

module _ {F : Type 0} (fl : Float F) where
  -- `prev[slug]`: the targets of the last old route with the slug
  unfoldable pub previous_targets : Bytes → List (SvcRoute F) → List (Target F)
  previous_targets slug [] = []
  previous_targets slug (r ∷ routes) =
      let rest = previous_targets slug routes in
      if any (λ (s : SvcRoute F). bytes_beq s.svc.slug slug) routes
      then rest
      else if bytes_beq r.svc.slug slug
      then r.pool.targets
      else rest

  unfoldable pub routes_of : Platform → List (SvcRoute F) → List Service → List (SvcRoute F)
  unfolding previous_targets
  routes_of pl prev [] = []
  routes_of pl prev (s ∷ services) =
      record {
        svc = s;
        matcher = compile_set pl s.rules;
        pool = new_pool fl s.egress (previous_targets s.slug prev);
      }
      ∷ routes_of pl prev services

  -- `Apply`; `split_host` is `net.SplitHostPort`, `none` its error.
  unfoldable pub apply :
      Platform → (Bytes → Option Bytes) → List (SvcRoute F) → Bytes → NodeConfig → Proxy F
  unfolding routes_of
  apply pl split_host prev backend c = record {
    routes = routes_of pl prev c.services;
    cfg = c;
    max_sess = if c.ingress.max_sessions == 0 then 10000 else c.ingress.max_sessions;
    doh_host = elim (split_host c.dns.doh_hostname) [ none ↦ c.dns.doh_hostname | some h ↦ h ];
    doh_backend = backend;
  }

  -- The targets with what a dial left of them.
  unfoldable pub found_target : Bytes → List (Target F) → Target F → Target F
  found_target id [] t = t
  found_target id (u ∷ us) t = if bytes_beq u.egress.node_id id then u else found_target id us t

  -- `dial`: the candidates in their order, and the loop over them.
  unfoldable pub dial :
      Bytes → ℕ → (Target F → Attempt) → (ℕ → ℕ → ℕ) → Pool F → DialResult F × Pool F
  unfolding dial_loop order found_target
  dial host port attempt draw p =
      let (fail, rise) = thresholds fl p in
      let (candidates, p') = order fl p draw in
      let (after, result) = dial_loop fl fail rise host port attempt candidates none in
      (result, record p' { targets = map (λ t. found_target t.egress.node_id after t) p.targets })

-- The variables of the loop of `lookup`.
pub record Best (F : Type 0) : Type 0 where
  pub best : Option (SvcRoute F)
  pub spec : ℤ
  pub prio : ℤ

abbrev pub no_best : {F : Type 0} → Best F
no_best = record { best = none; spec = negsuc 0; prio = negsuc 0 }

unfoldable pub consider : {F : Type 0} → SvcRoute F → ℤ → Best F → Best F
consider r spec b =
    if ltz spec (pos 0)
    then b
    else if ltz b.spec spec || (eqz spec b.spec && ltz b.prio r.svc.priority)
    then record { best = some r; spec = spec; prio = r.svc.priority }
    else b

unfoldable pub lookup_loop : {F : Type 0} → Platform → Bytes → List (SvcRoute F) → Best F → Best F
unfolding consider
lookup_loop pl host [] b = b
lookup_loop pl host (r ∷ routes) b =
    lookup_loop pl host routes (consider r (specificity pl (some r.matcher) host) b)

unfoldable pub lookup : {F : Type 0} → Platform → Proxy F → Bytes → Option (SvcRoute F)
unfolding lookup_loop
lookup pl p host = (lookup_loop pl host p.routes no_best).best

unfoldable pub port_allowed : List ℕ → ℕ → Bool
port_allowed allowed port = if is_empty allowed then port == 443 else elem port allowed

-- `settings`, as far as a session reads them: the limit of the bytes read ahead
unfoldable pub max_pre_read : {F : Type 0} → Proxy F → ℕ
max_pre_read p =
    if p.cfg.ingress.max_pre_read_bytes == 0 then 16384 else p.cfg.ingress.max_pre_read_bytes
