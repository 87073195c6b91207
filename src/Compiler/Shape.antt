-- ===== src/Compiler/Shape.antt =====
-- The services in the configs of panel/internal/compiler/compile.go.
use mathlib.Core.Path.{subst}
use smart_dns_proxy.Prelude.Int.{pos, eqz}
use smart_dns_proxy.Prelude.{
  ℕ, ◌≤◌, ◌≡◌, refl, inl, inr, Bool, true, false, not, List, [], ◌∷◌, arith, ltb, ◌==◌,
  if◌then◌else◌, Bool-cases, nat_eq, length, is_empty, All, All-append, All-keep, Bytes, bytes_eq,
  Result, ok, err, or_else, >>=-eq-ok, ok-inj, guard-ok,
}
use smart_dns_proxy.Prelude.Sort.{All-sort, sort, length-sort}
use smart_dns_proxy.Model.{EgressTarget, Service, NodeConfig}
use smart_dns_proxy.Compiler.Types.{
  ServiceInput, NodeInput, Input as CompileInput, Output, CompileError, unknown_role,
  ports_or_default, clamp_ttl,
}
use smart_dns_proxy.Compiler.Conflicts.{detect_conflicts}
use smart_dns_proxy.Compiler.Services.{
  Build, new_build, add_members, policy_of, service_of, early_warnings, by_priority,
  compile_service, compile_services,
}
use smart_dns_proxy.Compiler.Nodes.{
  Codec, services_for_ingress, ingress_node, egress_node, is_ingress, is_egress, node_config,
  Rendered, add_node, add_nodes, sort_services, none_rendered, finish,
}
use smart_dns_proxy.Compiler.Cover.{add_members-compiled}
use smart_dns_proxy.Compiler.Routes.{put-All}
use smart_dns_proxy.Compiler.{compile}

module _ (P : Service → Type 0)
    (made : (nodes : List NodeInput) (s : ServiceInput) (ts : List EgressTarget)
      → is_empty ts ≡ false
      → P (service_of nodes s ts)) where
  compile_service-All :
      (nodes : List NodeInput) (s : ServiceInput) (b c : Build)
      → All P b.compiled
      → compile_service nodes s b ≡ ok c
      → All P c.compiled
  unfolding compile_service
  compile_service-All nodes s b c h q =
      let b0 : Build = record b { warnings = early_warnings nodes s b.warnings } in
      let r = add_members nodes s s.egress_members ([], b0) in
      let same = add_members-compiled nodes s s.egress_members [] b0 in
      elim (Bool-cases (is_empty (r.0))) [
        | inl none_usable ↦ absurd (
            let failed : ◌≡◌ {A = Result CompileError Build} (err _) (ok c) = rw none_usable at q in
            cc)
        | inr usable ↦
            let result = guard-ok (is_empty (r.0)) _ _ c q in
            subst (λ (d : Build). All P d.compiled) result
              (All-append P (r.1).compiled _ (rw same h) (made nodes s (r.0) usable, tt))
      ]

  compile_services-All :
      (nodes : List NodeInput) (services : List ServiceInput) (b c : Build)
      → All P b.compiled
      → compile_services nodes services b ≡ ok c
      → All P c.compiled
  unfolding compile_services
  compile_services-All nodes [] b c h q = subst (λ (d : Build). All P d.compiled) (ok-inj q) h
  compile_services-All nodes (s ∷ services) b c h q =
      let (mid, first, rest) =
        >>=-eq-ok (compile_service nodes s b) (compile_services nodes services) q in
      compile_services-All nodes services mid c (compile_service-All nodes s b mid h first) rest

  node_config-All :
      (inp : CompileInput) (b : Build) (n : NodeInput) (cfg : NodeConfig)
      → All P b.compiled
      → node_config inp b n ≡ ok cfg
      → All P cfg.services
  unfolding node_config ingress_node egress_node services_for_ingress
  node_config-All inp b n cfg h q = by_role (is_ingress n) (is_egress n) q
    where
      by_role :
          (i e : Bool)
          → (if i
              then ok (ingress_node inp b.compiled n)
              else if e
              then ok (egress_node inp b n)
              else err (unknown_role n.name n.role))
            ≡ ok cfg
          → All P cfg.services
      by_role true e q =
          subst (λ (c : NodeConfig). All P c.services) (ok-inj q) (All-keep P _ b.compiled h)
      by_role false true q = subst (λ (c : NodeConfig). All P c.services) (ok-inj q) tt
      by_role false false q = cc

  add_nodes-All :
      (codec : Codec) (inp : CompileInput) (b : Build) (nodes : List NodeInput) (r out : Rendered)
      → All P b.compiled
      → All (λ (c : Bytes × NodeConfig). All P (c.1).services) r.configs
      → add_nodes codec inp b nodes r ≡ ok out
      → All (λ (c : Bytes × NodeConfig). All P (c.1).services) out.configs
  unfolding add_nodes add_node
  add_nodes-All codec inp b [] r out h k q =
      subst (λ (o : Rendered). All (λ (c : Bytes × NodeConfig). All P (c.1).services) o.configs)
        (ok-inj q) k
  add_nodes-All codec inp b (n ∷ nodes) r out h k q =
      let (mid, first, rest) =
        >>=-eq-ok (add_node codec inp b n r) (add_nodes codec inp b nodes) q in
      let (cfg, made', rendered) = >>=-eq-ok (node_config inp b n) _ first in
      let (bytes, _, added) = >>=-eq-ok (or_else (codec.render cfg) _) _ rendered in
      let more =
        subst (λ (o : Rendered). All (λ (c : Bytes × NodeConfig). All P (c.1).services) o.configs)
          (ok-inj added)
          (put-All (λ (c : Bytes × NodeConfig). All P (c.1).services) n.id cfg r.configs
            (node_config-All inp b n cfg h made') k) in
      add_nodes-All codec inp b nodes mid out h more rest

  -- What every service has that is made with a target, every service of every config has.
  pub compile-All :
      (codec : Codec) (inp : CompileInput) (out : Output)
      → compile codec inp ≡ ok out
      → All (λ (c : Bytes × NodeConfig). All P (c.1).services) out.configs
  unfolding compile finish
  compile-All codec inp out q =
      let q1 =
        guards (is_empty inp.revision_id) (not (is_empty (detect_conflicts inp.services))) _ _ _
          q in
      let (b, built, finished) =
        >>=-eq-ok (compile_services inp.nodes inp.services new_build) _ q1 in
      let h : All P b.compiled = compile_services-All inp.nodes inp.services new_build b tt built in
      let b' : Build = record b { compiled = sort_services b.compiled } in
      let (r, added, finished') =
        >>=-eq-ok (add_nodes codec inp b' inp.nodes (none_rendered b.warnings)) _ finished in
      subst (λ (o : Output). All (λ (c : Bytes × NodeConfig). All P (c.1).services) o.configs)
        (ok-inj finished')
        (add_nodes-All codec inp b' inp.nodes (none_rendered b.warnings) r
          (All-sort _ P b.compiled h) tt added)
    where
      guards :
          (no_id conflicts : Bool) (x y : CompileError) (r : Result CompileError Output)
          → (if no_id then err x else if conflicts then err y else r) ≡ ok out
          → r ≡ ok out
      guards true conflicts x y r q = cc
      guards false true x y r q = cc
      guards false false x y r q = q

-- A service that nodes can run: with targets, ports, a TTL from 30 to 300, and thresholds that are not
-- zero.
abbrev pub IsRunnable : Service → Type 0
IsRunnable s =
    (is_empty s.egress.targets ≡ false)
    × (is_empty s.allowed_ports ≡ false)
    × (30 ≤ s.ttl)
    × (s.ttl ≤ 300)
    × (eqz s.egress.fail_threshold (pos 0) ≡ false)
    × (eqz s.egress.rise_threshold (pos 0) ≡ false)

is_empty-length {ℓ} : {A : Type ℓ} (xs : List A) → is_empty xs ≡ (length xs == 0)
is_empty-length [] = refl
is_empty-length (x ∷ xs) = ground arith

service_of-IsRunnable :
    (nodes : List NodeInput) (s : ServiceInput) (ts : List EgressTarget)
    → is_empty ts ≡ false
    → IsRunnable (service_of nodes s ts)
unfolding service_of policy_of ports_or_default clamp_ttl
service_of-IsRunnable nodes s ts h = (
  ground (
    arith,
    is_empty-length ts,
    is_empty-length (sort by_priority ts),
    length-sort by_priority ts,
  ),
  by_ports s.allowed_ports,
  ground arith,
  ground arith,
  ground arith,
  ground arith,
)
  where
    by_ports : (ps : List ℕ) → is_empty (if is_empty ps then 443 ∷ [] else sort ltb ps) ≡ false
    by_ports [] = refl
    by_ports (p ∷ ps) =
        ground (arith, is_empty-length (sort ltb (p ∷ ps)), length-sort ltb (p ∷ ps))

-- Every service of every config that a successful compilation gives has a target and a port, a TTL
-- from 30 to 300 seconds, and thresholds other than zero, the value that stands for none given.
pub compile-IsRunnable :
    (codec : Codec) (inp : CompileInput) (out : Output)
    → compile codec inp ≡ ok out
    → All (λ (c : Bytes × NodeConfig). All IsRunnable (c.1).services) out.configs
compile-IsRunnable codec inp out q = compile-All IsRunnable service_of-IsRunnable codec inp out q
