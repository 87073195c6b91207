-- ===== src/Compiler/Services.antt =====
-- The loop of `Compile` over the services.
use smart_dns_proxy.Prelude.{
  ℕ, ◌+◌, Bool, true, false, not, ◌&&◌, ◌||◌, none, some, List, [], ◌∷◌, ◌++◌, if◌then◌else◌,
  nat_eq, length, is_empty, elem, Bytes, codes, bytes_beq, bytes_eq, bytes_lt, Result, ok, err,
  ◌>>=◌,
}
use smart_dns_proxy.Prelude.Int.{ℤ, pos, eqz, ltz}
use smart_dns_proxy.Prelude.Sort
use smart_dns_proxy.Domainset.{Entry}
use smart_dns_proxy.Domainset.Matcher.{new_set}
use smart_dns_proxy.Model.{EgressTarget, EgressPolicy, Service}
use smart_dns_proxy.Compiler.Types.{
  EgressMember, ServiceInput, NodeInput, Warning, empty_rule_set, no_ingress_address,
  no_relay_endpoint, CompileError, no_usable_egress, clamp_ttl, ports_or_default, or_default,
  find_node, put,
}

-- What the loop collects. The two maps are functions of a node's ID.
pub record Build : Type 0 where
  pub warnings : List Warning
  pub compiled : List Service
  pub allow : Bytes → List Entry
  pub ports : Bytes → List ℕ
  pub rules_by_service : List (Bytes × ℕ)
  pub total_rules : ℕ

abbrev pub new_build : Build
new_build = record {
  warnings = [];
  compiled = [];
  allow = λ _. [];
  ports = λ _. [];
  rules_by_service = [];
  total_rules = 0;
}

-- An address of each eligible node that has one.
unfoldable pub addresses : (NodeInput → Bytes) → List NodeInput → List Bytes → List Bytes
unfolding find_node
addresses address nodes [] = []
addresses address nodes (id ∷ ids) =
    let rest = addresses address nodes ids in
    elim (find_node id nodes) [
      | none ↦ rest
      | some n ↦ if not n.eligible || is_empty (address n) then rest else address n ∷ rest
    ]

unfoldable pub endpoint : NodeInput → Bytes
endpoint n =
    if is_empty n.relay_endpoint && not (is_empty n.public_ipv4)
    then n.public_ipv4 ++ codes ":8443"
    else n.relay_endpoint

abbrev pub warn : Bool → Warning → List Warning → List Warning
warn true w ws = ws ++ w ∷ []
warn false w ws = ws

-- `egressPorts[id][p] = true`
unfoldable pub add_ports : List ℕ → List ℕ → List ℕ
add_ports [] set = set
add_ports (p ∷ ps) set = add_ports ps (if elem p set then set else set ++ p ∷ [])

-- A member that is used: its target, its rules and its ports.
unfoldable pub use_member :
    ServiceInput → EgressMember → NodeInput → List EgressTarget × Build → List EgressTarget × Build
unfolding add_ports
use_member s m n (targets, b) = (
  targets
      ++ record {
        node_id = n.id;
        name = n.name;
        endpoint = endpoint n;
        sni = or_default n.relay_sni n.name;
        priority = m.priority;
        weight = m.weight;
      }
        ∷ [],
  record b {
    allow = λ id. if bytes_beq id n.id then b.allow id ++ s.entries else b.allow id;
    ports = λ id.
        if bytes_beq id n.id
        then add_ports (ports_or_default s.allowed_ports) (b.ports id)
        else b.ports id;
  },
)

unfoldable pub add_member :
    List NodeInput
    → ServiceInput
    → EgressMember
    → List EgressTarget × Build
    → List EgressTarget × Build
unfolding find_node use_member endpoint
add_member nodes s m (targets, b) = elim (find_node m.node_id nodes) [
  | none ↦ (targets, b)
  | some n ↦
      if not n.eligible
      then (targets, b)
      else if is_empty (endpoint n)
      then (targets, record b { warnings = b.warnings ++ no_relay_endpoint n.name ∷ [] })
      else use_member s m n (targets, b)
]

unfoldable pub add_members :
    List NodeInput
    → ServiceInput
    → List EgressMember
    → List EgressTarget × Build
    → List EgressTarget × Build
unfolding add_member
add_members nodes s [] st = st
add_members nodes s (m ∷ ms) st = add_members nodes s ms (add_member nodes s m st)

abbrev pub by_priority : EgressTarget → EgressTarget → Bool
by_priority a b = ltz a.priority b.priority

abbrev pub default_to : ℤ → ℤ → ℤ
default_to n d = if eqz n (pos 0) then d else n

unfoldable pub policy_of : ServiceInput → List EgressTarget → EgressPolicy
policy_of s targets = record (s.policy) {
  mode = or_default s.egress_mode (codes "primary_fallback");
  targets = Sort.sort by_priority targets;
  fail_threshold = default_to s.policy.fail_threshold (pos 3);
  rise_threshold = default_to s.policy.rise_threshold (pos 2);
  probe_interval = default_to s.policy.probe_interval (pos 30);
}

unfoldable pub service_of : List NodeInput → ServiceInput → List EgressTarget → Service
unfolding addresses policy_of clamp_ttl ports_or_default
service_of nodes s targets = record {
  slug = s.slug;
  name = s.name;
  priority = s.priority;
  ttl = clamp_ttl s.ttl;
  allowed_ports = ports_or_default s.allowed_ports;
  udp_mode = or_default s.udp_mode (codes "disabled_fallback");
  rules = new_set s.entries;
  rule_set_hash = s.rule_set_hash;
  ingress_v4 = Sort.sort bytes_lt (addresses (λ n. n.public_ipv4) nodes s.ingress_nodes);
  ingress_v6 = Sort.sort bytes_lt (addresses (λ n. n.public_ipv6) nodes s.ingress_nodes);
  egress = policy_of s targets;
}

-- the two warnings that come before the members are looked at
unfoldable pub early_warnings : List NodeInput → ServiceInput → List Warning → List Warning
unfolding addresses
early_warnings nodes s ws =
    warn (is_empty (addresses (λ n. n.public_ipv4) nodes s.ingress_nodes))
      (no_ingress_address s.slug) (warn (is_empty s.entries) (empty_rule_set s.slug) ws)

unfoldable pub compile_service : List NodeInput → ServiceInput → Build → Result CompileError Build
unfolding early_warnings add_members service_of put
compile_service nodes s b =
    let (targets, c) =
      add_members nodes s s.egress_members
        ([], record b { warnings = early_warnings nodes s b.warnings }) in
    if is_empty targets
    then err (no_usable_egress s.slug)
    else ok (record c {
      compiled = c.compiled ++ service_of nodes s targets ∷ [];
      rules_by_service = put s.slug (length s.entries) c.rules_by_service;
      total_rules = c.total_rules + length s.entries;
    })

unfoldable pub compile_services :
    List NodeInput → List ServiceInput → Build → Result CompileError Build
unfolding compile_service
compile_services nodes [] b = ok b
compile_services nodes (s ∷ services) b = do
  c ← compile_service nodes s b
  compile_services nodes services c
