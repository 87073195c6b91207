-- ===== src/Compiler/Backed.antt =====
-- What the loop over the services says of each compiled service.
use smart_dns_proxy.Prelude.{
  ℕ, ◌+◌, ◌≡◌, refl, sym, List, [], ◌∷◌, ◌++◌, nat_eq, length, is_empty, All, All-append, bytes_eq,
  ok, >>=-eq-ok, ok-inj, guard-ok,
}
use smart_dns_proxy.Prelude.Sort.{All-sort}
use mathlib.Core.Path.{subst}
use smart_dns_proxy.Domainset.{Entry, entry_eq}
use smart_dns_proxy.Domainset.Matcher.{new_set}
use smart_dns_proxy.Model.{EgressTarget, Service}
use smart_dns_proxy.Compiler.Types.{ServiceInput, NodeInput, put}
use smart_dns_proxy.Compiler.Services.{
  Build, add_members, policy_of, service_of, early_warnings, by_priority, compile_service,
  compile_services,
}
use smart_dns_proxy.Compiler.Cover.{
  Lets, Grows, Served, Lets-Grows, add_members-Served, add_members-compiled,
}

-- A compiled service stands on rules that every one of its targets lets through, with its ports.
abbrev pub Backed : Build → Service → Type 0
Backed b cs =
    (es : List Entry) × (cs.rules ≡ new_set es)
    × All (λ t. Lets b es cs.allowed_ports t.node_id) cs.egress.targets

All-map-Lets :
    (b c : Build) (es : List Entry) (ports : List ℕ) (ts : List EgressTarget)
    → Grows b c
    → All (λ t. Lets b es ports t.node_id) ts
    → All (λ t. Lets c es ports t.node_id) ts
All-map-Lets b c es ports [] g h = tt
All-map-Lets b c es ports (t ∷ ts) g h =
    (Lets-Grows b c es ports t.node_id g h.0, All-map-Lets b c es ports ts g h.1)

Backed-Grows :
    (b c : Build) (services : List Service)
    → Grows b c
    → All (Backed b) services
    → All (Backed c) services
Backed-Grows b c [] g h = tt
Backed-Grows b c (s ∷ services) g ((es, q, lets), h) = (
  (es, q, All-map-Lets b c es s.allowed_ports s.egress.targets g lets),
  Backed-Grows b c services g h,
)

compile_service-Backed :
    (nodes : List NodeInput) (s : ServiceInput) (b c : Build)
    → All (Backed b) b.compiled
    → compile_service nodes s b ≡ ok c
    → All (Backed c) c.compiled
unfolding compile_service service_of policy_of
compile_service-Backed nodes s b c h q =
    let b0 : Build = record b { warnings = early_warnings nodes s b.warnings } in
    let r = add_members nodes s s.egress_members ([], b0) in
    let (served, grows) = add_members-Served nodes s s.egress_members [] b0 tt in
    let same = add_members-compiled nodes s s.egress_members [] b0 in
    let cs = service_of nodes s (r.0) in
    let next : Build = record (r.1) {
      compiled = (r.1).compiled ++ cs ∷ [];
      rules_by_service = put s.slug (length s.entries) (r.1).rules_by_service;
      total_rules = (r.1).total_rules + length s.entries;
    } in
    let new : Backed next cs =
      (s.entries, refl, All-sort by_priority (Served next s) (r.0) served) in
    let old : All (Backed next) (r.1).compiled = rw same (Backed-Grows b next b.compiled grows h) in
    let both : All (Backed next) next.compiled =
      All-append (Backed next) (r.1).compiled (cs ∷ []) old (new, tt) in
    let result : next ≡ c = guard-ok (is_empty (r.0)) _ next c q in
    subst (λ d. All (Backed d) d.compiled) result both

pub compile_services-Backed :
    (nodes : List NodeInput) (services : List ServiceInput) (b c : Build)
    → All (Backed b) b.compiled
    → compile_services nodes services b ≡ ok c
    → All (Backed c) c.compiled
unfolding compile_services
compile_services-Backed nodes [] b c h q = let same : b ≡ c = ok-inj q in rw (sym same) h
compile_services-Backed nodes (s ∷ services) b c h q =
    let (mid, first, rest) =
      >>=-eq-ok (compile_service nodes s b) (compile_services nodes services) q in
    compile_services-Backed nodes services mid c (compile_service-Backed nodes s b mid h first) rest
