-- ===== src/Compiler/Routes.antt =====
-- The configs of panel/internal/compiler/compile.go: the routes of the ingress nodes and the rules of the egress nodes.
use smart_dns_proxy.Prelude.{
  ℕ, ◌≡◌, refl, sym, ◌∙◌, ◌⊎◌, inl, inr, Bool, true, false, not, some, List, [], ◌∷◌, arith, ltb,
  if◌then◌else◌, Bool-cases, nat_eq, is_empty, All, All-keep, elem, Bytes, codes, bytes_beq,
  bytes_beq_iff, bytes_eq, Result, ok, err, or_else, >>=-eq-ok, ok-inj,
}
use smart_dns_proxy.Prelude.Sort.{All-sort, elem-sort}
use mathlib.Core.Path.{subst}
use smart_dns_proxy.Platform.{Platform}
use smart_dns_proxy.Domainset.{Entry, entry_eq}
use smart_dns_proxy.Domainset.Rules.{merge, is_excluded, suffix_values, suffix_hit}
use smart_dns_proxy.Domainset.Rules.Walk.{suffix_hit_iff}
use smart_dns_proxy.Domainset.Rules.Merge.{merge-elem}
use smart_dns_proxy.Domainset.Matcher.{new_set, match}
use smart_dns_proxy.Domainset.Matcher.{compile as compile_set}
use smart_dns_proxy.Domainset.Matcher.Laws.{match_mono}
use smart_dns_proxy.Model.{EgressTarget, Service, NodeConfig}
use smart_dns_proxy.Compiler.Types.{
  NodeInput, Input as CompileInput, Output, CompileError, unknown_role, put, sort_ports,
}
use smart_dns_proxy.Compiler.Services.{Build, new_build, compile_services}
use smart_dns_proxy.Compiler.Nodes.{
  Codec, services_for_ingress, ingress_node, egress_node, is_ingress, is_egress, node_config,
  Rendered, add_node, add_nodes, sort_services, none_rendered, finish,
}
use smart_dns_proxy.Compiler.Cover.{Lets}
use smart_dns_proxy.Compiler.{compile}
use smart_dns_proxy.Compiler.Conflicts.{detect_conflicts}
use smart_dns_proxy.Compiler.Backed.{Backed, compile_services-Backed}

-- The config of an egress node holds what the build gave the node, that of an ingress only services
-- that are backed.
abbrev FromBuild : Build → Bytes × NodeConfig → Type 0
FromBuild b (id, cfg) =
    All (Backed b) cfg.services
    × (bytes_beq cfg.role (codes "egress") ≡ true
        → (cfg.egress.allow ≡ new_set (merge (b.allow id) []))
          × (cfg.egress.allowed_ports ≡ sort_ports (b.ports id)))

pub put-All :
    (P : Bytes × NodeConfig → Type 0) (k : Bytes) (cfg : NodeConfig) (m : List (Bytes × NodeConfig))
    → P (k, cfg)
    → All P m
    → All P (put k cfg m)
unfolding put
put-All P k cfg [] new h = (new, tt)
put-All P k cfg ((j, w) ∷ m) new h =
    elim (bytes_beq j k) as (λ e. All P (if e then (k, cfg) ∷ m else (j, w) ∷ put k cfg m)) [
      | true ↦ (new, h.1)
      | false ↦ (h.0, put-All P k cfg m new h.1)
    ]

node_config-FromBuild :
    (inp : CompileInput) (b : Build) (n : NodeInput) (cfg : NodeConfig)
    → All (Backed b) b.compiled
    → node_config inp b n ≡ ok cfg
    → FromBuild b (n.id, cfg)
unfolding node_config ingress_node egress_node services_for_ingress
node_config-FromBuild inp b n cfg h q = elim (which (is_ingress n) (is_egress n) q) [
  | inl (role, made) ↦
      subst (λ c. FromBuild b (n.id, c)) made
        (All-keep (Backed b) _ b.compiled h, λ e. absurd (not_both role e))
  | inr made ↦ subst (λ c. FromBuild b (n.id, c)) made (tt, λ e. (refl, refl))
]
  where
    not_both :
        bytes_beq n.role (codes "ingress") ≡ true → bytes_beq n.role (codes "egress") ≡ true → ⊥
    not_both i e =
        let role : n.role ≡ codes "ingress" = (bytes_beq_iff n.role (codes "ingress")).0 i in
        let both : bytes_beq (codes "ingress") (codes "egress") ≡ true = rw role at e in cc

    which :
        (i e : Bool)
        → (if i
            then ok (ingress_node inp b.compiled n)
            else if e
            then ok (egress_node inp b n)
            else err (unknown_role n.name n.role))
          ≡ ok cfg
        → ((i ≡ true) × (ingress_node inp b.compiled n ≡ cfg)) ⊎ (egress_node inp b n ≡ cfg)
    which true e q = inl (refl, ok-inj q)
    which false true q = inr (ok-inj q)
    which false false q = absurd cc

add_nodes-FromBuild :
    (codec : Codec) (inp : CompileInput) (b : Build) (nodes : List NodeInput) (r out : Rendered)
    → All (Backed b) b.compiled
    → All (FromBuild b) r.configs
    → add_nodes codec inp b nodes r ≡ ok out
    → All (FromBuild b) out.configs
unfolding add_nodes add_node
add_nodes-FromBuild codec inp b [] r out h done q =
    subst (λ o. All (FromBuild b) o.configs) (ok-inj q) done
add_nodes-FromBuild codec inp b (n ∷ nodes) r out h done q =
    let (mid, first, rest) = >>=-eq-ok (add_node codec inp b n r) (add_nodes codec inp b nodes) q in
    let (cfg, made, rendered) = >>=-eq-ok (node_config inp b n) _ first in
    let (bytes, _, added) = >>=-eq-ok (or_else (codec.render cfg) _) _ rendered in
    let more : All (FromBuild b) mid.configs =
      subst (λ o. All (FromBuild b) o.configs) (ok-inj added)
        (put-All (FromBuild b) n.id cfg r.configs (node_config-FromBuild inp b n cfg h made)
          done) in
    add_nodes-FromBuild codec inp b nodes mid out h more rest

-- Every route of a config leads to a node that lets its hosts and its ports through, if that node is
-- an egress node of the same output.
abbrev pub Carried : Platform → Service → EgressTarget → Bytes × NodeConfig → Type 0
Carried pl s t (id, cfg) =
    id ≡ t.node_id
    → bytes_beq cfg.role (codes "egress") ≡ true
    → ((host : Bytes)
        → match pl (some (compile_set pl s.rules)) host ≡ true
        → match pl (some (compile_set pl cfg.egress.allow)) host ≡ true)
      × ((port : ℕ) → elem port s.allowed_ports ≡ true → elem port cfg.egress.allowed_ports ≡ true)

nothing_excluded : (x : Entry) → is_excluded [] x ≡ false
unfolding is_excluded suffix_values
nothing_excluded x = elim (Bool-cases (suffix_hit (λ v. elem v (suffix_values [])) x.value)) [
  | inl hit ↦
      let (v, _, m) = (suffix_hit_iff (λ v. elem v (suffix_values [])) x.value).0 hit in
      let no : false ≡ true = m in cc
  | inr miss ↦ ground arith
]

carried :
    (pl : Platform) (b : Build) (s : Service) (t : EgressTarget) (es : List Entry)
    (config : Bytes × NodeConfig)
    → s.rules ≡ new_set es
    → Lets b es s.allowed_ports t.node_id
    → FromBuild b config
    → Carried pl s t config
carried pl b s t es (id, cfg) rules lets from same egress =
    let (allow, ports) = from.1 egress in
    (
      λ host m.
          rw (allow, same)
            (match_mono pl es (merge (b.allow t.node_id) []) host
              (λ x k.
                merge-elem x (b.allow t.node_id) []
                ∙ ground (arith, lets.0 x k, nothing_excluded x))
              (rw (sym rules) m)),
      λ port k. rw (ports, same) (elem-sort ltb port (b.ports t.node_id) ∙ lets.1 port k),
    )

abbrev Routed : Platform → List (Bytes × NodeConfig) → Service → Type 0
Routed pl configs s = All (λ t. All (Carried pl s t) configs) s.egress.targets

routed :
    (pl : Platform) (b : Build) (configs : List (Bytes × NodeConfig)) (s : Service)
    → All (FromBuild b) configs
    → Backed b s
    → Routed pl configs s
routed pl b configs s h (es, rules, lets) = targets s.egress.targets lets
  where
    to :
        (t : EgressTarget)
        → Lets b es s.allowed_ports t.node_id
        → (cs : List (Bytes × NodeConfig)) → All (FromBuild b) cs
        → All (Carried pl s t) cs
    to t l [] h = tt
    to t l (c ∷ cs) h = (carried pl b s t es c rules l h.0, to t l cs h.1)

    targets :
        (ts : List EgressTarget)
        → All (λ t. Lets b es s.allowed_ports t.node_id) ts
        → All (λ t. All (Carried pl s t) configs) ts
    targets [] l = tt
    targets (t ∷ ts) l = (to t l.0 configs h, targets ts l.1)

All-Routed :
    (pl : Platform) (b : Build) (configs cs : List (Bytes × NodeConfig))
    → All (FromBuild b) configs
    → All (FromBuild b) cs
    → All (λ c. All (Routed pl configs) ((c.1).services)) cs
All-Routed pl b configs [] h g = tt
All-Routed pl b configs ((id, cfg) ∷ cs) h g =
    (services cfg.services (g.0).0, All-Routed pl b configs cs h g.1)
  where
    services : (ss : List Service) → All (Backed b) ss → All (Routed pl configs) ss
    services [] k = tt
    services (s ∷ ss) k = (routed pl b configs s h k.0, services ss k.1)

-- In what a successful compilation gives, each service of each node's config has only targets that
-- carry it: when a config of the output is filed under the target's ID and has the role of an egress,
-- its allowlist matches every host that the service's rules match, and its ports include every port
-- that the service allows.
pub compile-routed :
    (pl : Platform) (codec : Codec) (inp : CompileInput) (out : Output)
    → compile codec inp ≡ ok out
    → All
        (λ c.
          All (λ s. All (λ t. All (Carried pl s t) out.configs) s.egress.targets) ((c.1).services))
        out.configs
unfolding compile finish
compile-routed pl codec inp out q =
    let q1 =
      guards (is_empty inp.revision_id) (not (is_empty (detect_conflicts inp.services))) _ _ _ q in
    let (b, built, finished) = >>=-eq-ok (compile_services inp.nodes inp.services new_build) _ q1 in
    let backed : All (Backed b) b.compiled =
      compile_services-Backed inp.nodes inp.services new_build b tt built in
    let b' : Build = record b { compiled = sort_services b.compiled } in
    let (r, added, made) =
      >>=-eq-ok (add_nodes codec inp b' inp.nodes (none_rendered b.warnings)) _ finished in
    let from : All (FromBuild b') r.configs =
      add_nodes-FromBuild codec inp b' inp.nodes (none_rendered b.warnings) r
        (All-sort _ (Backed b') b.compiled backed) tt added in
    subst (λ o. All (λ c. All (Routed pl o.configs) ((c.1).services)) o.configs) (ok-inj made)
      (All-Routed pl b' r.configs r.configs from from)
  where
    guards :
        (no_id conflicts : Bool) (x y : CompileError) (r : Result CompileError Output)
        → (if no_id then err x else if conflicts then err y else r) ≡ ok out
        → r ≡ ok out
    guards true conflicts x y r q = cc
    guards false true x y r q = cc
    guards false false x y r q = q
