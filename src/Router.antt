-- ===== src/Router.antt =====
-- node/dnsfe/router.go: which service owns a name, and which clients may ask.
pub mod Owner
use smart_dns_proxy.Prelude.{
  ℕ, zero, suc, ◌+◌, ◌-◌, ◌*◌, ◌/◌, ◌%◌, ◌^◌, ◌≤◌, ◌<◌, ◌≡◌, refl, sym, ap, ◌∙◌, ◌≢◌, ◌↔◌, ◌⊎◌, inl,
  inr, Bool, true, false, not, ◌&&◌, ◌||◌, Option, none, some, List, [], ◌∷◌, ◌++◌, map, arith, ltb,
  leb, ◌==◌, if◌then◌else◌, ltb→lt, ltb→le, lt→ltb, leb→le, leb→lt, ==_iff, tests, Bool-cases,
  Option-cases, eq_of_iff, is_some, Eq, nat_eq, beq_refl, length, is_empty, get_or, take, drop,
  keep, any, all, length-append, take-append-drop, take-append, drop-append, length-take,
  length-drop, length-keep-le, All, All-append, All-keep, elem, nodup, elem-append, elem-keep,
  All-elem, elem-All, switch, switch-All, Bytes, codes, bytes_beq, bytes_beq_refl, bytes_beq_iff,
  bytes_eq, bytes_lt, bytes_lt_irrefl, bytes_lt_asymm, bytes_lt_trans, bytes_lt_total, Result, ok,
  err, ◌>>=◌, or_else, >>=-eq-ok,
}
use smart_dns_proxy.Prelude.Int.{ℤ, pos, negsuc, ltz, eqz}
use smart_dns_proxy.Platform.{Platform}
use smart_dns_proxy.Strings.{to_lower, trim_space, trim_last, dot}
use smart_dns_proxy.Netip.{Addr, Prefix, contains}
use smart_dns_proxy.Model.{Service, NodeConfig}
use smart_dns_proxy.Domainset.Matcher.{Matcher, compile, specificity}

pub record Route : Type 0 where
  pub svc : Service
  pub matcher : Matcher

-- `cfg` is none before the first `Apply`.
pub record Router : Type 0 where
  pub routes : List Route
  pub cfg : Option NodeConfig
  pub acl : List Prefix
  pub tokens : List Bytes

unfoldable pub routes_of : Platform → List Service → List Route
routes_of pl [] = []
routes_of pl (s ∷ services) =
    record { svc = s; matcher = compile pl s.rules } ∷ routes_of pl services

-- `parse` is `netip.ParsePrefix`; what it refuses is skipped.
unfoldable pub acl_of : Platform → (Bytes → Option Prefix) → List Bytes → List Prefix
acl_of pl parse [] = []
acl_of pl parse (s ∷ cidrs) =
    let rest = acl_of pl parse cidrs in
    elim (parse (trim_space pl s)) [ some p ↦ p ∷ rest | none ↦ rest ]

-- `Apply` replaces the whole table.
unfoldable pub apply : Platform → (Bytes → Option Prefix) → NodeConfig → Router
unfolding routes_of acl_of
apply pl parse c = record {
  routes = routes_of pl c.services;
  cfg = some c;
  acl = acl_of pl parse c.dns.access.allowed_cidrs;
  tokens = map (to_lower pl) c.dns.access.doh_path_tokens;
}

-- The variables of the loop of `Lookup`.
pub record Best : Type 0 where
  pub best : Option Service
  pub spec : ℤ
  pub prio : ℤ

abbrev pub no_best : Best
no_best = record { best = none; spec = negsuc 0; prio = negsuc 0 }

-- One round, on a route with this specificity.
unfoldable pub consider : Service → ℤ → Best → Best
consider svc spec b =
    if ltz spec (pos 0)
    then b
    else if ltz b.spec spec || (eqz spec b.spec && ltz b.prio svc.priority)
    then record { best = some svc; spec = spec; prio = svc.priority }
    else b

unfoldable pub lookup_loop : Platform → Bytes → List Route → Best → Best
unfolding consider
lookup_loop pl host [] b = b
lookup_loop pl host (r ∷ routes) b =
    lookup_loop pl host routes (consider r.svc (specificity pl (some r.matcher) host) b)

unfoldable pub lookup : Platform → Router → Bytes → Option Service
unfolding lookup_loop
lookup pl r host = (lookup_loop pl host r.routes no_best).best

unfoldable pub in_acl : Router → Addr → Bool
in_acl r ip = if is_empty r.acl then false else any (λ p. contains p ip) r.acl

-- The access mode of the configuration decides.
unfoldable pub allow_by_mode : Platform → Router → Bytes → Addr → Bytes → Bool
unfolding in_acl
allow_by_mode pl r mode ip doh_token =
    switch
      ((
        bytes_beq mode (codes "doh-token"),
        (not (is_empty doh_token) && elem (to_lower pl doh_token) r.tokens) || in_acl r ip,
      )
        ∷ (bytes_beq mode (codes "mtls"), in_acl r ip)
        ∷ (bytes_beq mode (codes "restricted-public-dot"), true)
        ∷ [])
      (in_acl r ip)

unfoldable pub allow_client : Platform → Router → Addr → Bytes → Bool
unfolding allow_by_mode
allow_client pl r ip doh_token = elim r.cfg [
  | none ↦ false
  | some c ↦ allow_by_mode pl r c.dns.access.mode ip doh_token
]

unfoldable pub normalize_qname : Platform → Bytes → Bytes
normalize_qname pl q = to_lower pl (trim_last dot q)
