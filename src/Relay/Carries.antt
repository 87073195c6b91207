-- ===== src/Relay/Carries.antt =====
-- `Compile` of panel/internal/compiler/compile.go and `Allowed` of node/relay/relay.go together.
use smart_dns_proxy.Prelude.{
  ℕ, ◌≡◌, true, some, List, [], ◌∷◌, if◌then◌else◌, nat_eq, is_empty, All, elem, Bytes, codes,
  bytes_beq, bytes_eq, ok,
}
use smart_dns_proxy.Platform.{Platform}
use smart_dns_proxy.Domainset.Matcher.{match}
use smart_dns_proxy.Domainset.Matcher.{compile as compile_set}
use smart_dns_proxy.Model.{EgressTarget, Service, NodeConfig}
use smart_dns_proxy.Compiler.Types.{Input as CompileInput, Output}
use smart_dns_proxy.Compiler.Nodes.{Codec}
use smart_dns_proxy.Compiler.{compile}
use smart_dns_proxy.Compiler.Routes.{Carried, compile-routed}
use smart_dns_proxy.Relay.{apply, allowed}

-- A relay with this config admits what the service routes, if it is the target's.
abbrev pub Admits : Platform → Service → EgressTarget → Bytes × NodeConfig → Type 0
Admits pl s t (id, cfg) =
    id ≡ t.node_id
    → bytes_beq cfg.role (codes "egress") ≡ true
    → (host : Bytes) (port : ℕ) → match pl (some (compile_set pl s.rules)) host ≡ true
    → elem port s.allowed_ports ≡ true
    → allowed pl (apply pl cfg) host port ≡ true

admits :
    (pl : Platform) (s : Service) (t : EgressTarget) (config : Bytes × NodeConfig)
    → Carried pl s t config
    → Admits pl s t config
unfolding allowed apply
admits pl s t (id, cfg) carried same egress host port m p =
    let (hosts, ports) = carried same egress in
    let listed = ports port p in
    let matched = hosts host m in
    let open_port : elem port
          (if is_empty cfg.egress.allowed_ports then 443 ∷ [] else cfg.egress.allowed_ports)
        ≡ true =
      given cfg.egress.allowed_ports listed in
    rw open_port matched
  where
    given :
        (ps : List ℕ)
        → elem port ps ≡ true
        → elem port (if is_empty ps then 443 ∷ [] else ps) ≡ true
    given [] k = cc
    given (q ∷ ps) k = k

All-map :
    {A : Type 0} (P Q : A → Type 0) (xs : List A) → ((x : A) → P x → Q x) → All P xs → All Q xs
All-map P Q [] f h = tt
All-map P Q (x ∷ xs) f h = (f x h.0, All-map P Q xs f h.1)

-- The panel and the relay agree. In what a successful compilation gives, take a service of a node's
-- config, a target of that service, and the config of an egress node that is filed under the target's
-- ID: a relay that applies that config allows every host that the service's rules match, with every
-- port that the service allows.
pub compile-admitted :
    (pl : Platform) (codec : Codec) (inp : CompileInput) (out : Output)
    → compile codec inp ≡ ok out
    → All
        (λ c.
          All (λ s. All (λ t. All (Admits pl s t) out.configs) s.egress.targets) ((c.1).services))
        out.configs
compile-admitted pl codec inp out q =
    All-map _ _ out.configs
      (λ c.
        All-map _ _ ((c.1).services)
          (λ s. All-map _ _ s.egress.targets (λ t. All-map _ _ out.configs (admits pl s t))))
      (compile-routed pl codec inp out q)
