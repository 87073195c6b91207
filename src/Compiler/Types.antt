-- ===== src/Compiler/Types.antt =====
-- The types of the compiler, and the small helpers. A warning is kept as what it is about.
use smart_dns_proxy.Prelude.{
  ℕ, Bool, Option, none, some, List, [], ◌∷◌, ltb, if◌then◌else◌, nat_eq, is_empty, Bytes,
  bytes_beq, bytes_eq,
}
use smart_dns_proxy.Prelude.Int.{ℤ}
use smart_dns_proxy.Prelude.Sort
use smart_dns_proxy.Domainset.{Entry}
use smart_dns_proxy.Model.{
  EgressPolicy, DnsConfig, IngressConfig, EgressConfig, NodeConfig, Manifest,
}

pub record EgressMember : Type 0 where
  pub node_id : Bytes
  pub priority : ℤ
  pub weight : ℕ

pub record ServiceInput : Type 0 where
  pub slug : Bytes
  pub name : Bytes
  pub priority : ℤ
  pub ttl : ℕ
  pub allowed_ports : List ℕ
  pub udp_mode : Bytes
  pub entries : List Entry
  pub rule_set_hash : Bytes
  pub ingress_nodes : List Bytes
  pub egress_members : List EgressMember
  pub egress_mode : Bytes
  pub policy : EgressPolicy

pub record NodeInput : Type 0 where
  pub id : Bytes
  pub name : Bytes
  pub role : Bytes
  pub public_ipv4 : Bytes
  pub public_ipv6 : Bytes
  pub relay_endpoint : Bytes
  pub relay_sni : Bytes
  pub eligible : Bool

-- `now` is the reading of the clock; `signing_key` is a key of the right size, if there is one.
pub record Input : Type 0 where
  pub revision_id : Bytes
  pub sequence : ℕ
  pub services : List ServiceInput
  pub nodes : List NodeInput
  pub dns : DnsConfig
  pub ingress : IngressConfig
  pub egress_tuning : EgressConfig
  pub min_agent_ver : Bytes
  pub lab_mode : Bool
  pub log_level : Bytes
  pub signing_key : Option Bytes
  pub now : ℕ

pub data Warning : Type 0 where
  empty_rule_set no_ingress_address : Bytes → Warning
  no_relay_endpoint empty_allowlist : Bytes → Warning

pub record Summary : Type 0 where
  pub services : ℕ
  pub ingress_nodes : ℕ
  pub egress_nodes : ℕ
  pub total_rules : ℕ
  pub rules_by_service : List (Bytes × ℕ)
  pub lab_mode : Bool

pub record Output : Type 0 where
  pub manifest : Manifest
  pub artifacts : List (Bytes × Bytes)
  pub configs : List (Bytes × NodeConfig)
  pub warnings : List Warning
  pub summary : Summary

pub record Conflict : Type 0 where
  pub value : Bytes
  pub kind : Bytes
  pub services : List Bytes
  pub priority : ℤ

pub data CompileError : Type 0 where
  no_revision_id : CompileError
  rule_conflicts : List Conflict → CompileError
  -- the service by its slug; the node by its name and role
  no_usable_egress : Bytes → CompileError
  unknown_role : Bytes → Bytes → CompileError
  render_failed : Bytes → CompileError

unfoldable pub clamp_ttl : ℕ → ℕ
clamp_ttl t = if ltb t 30 then 30 else if ltb 300 t then 300 else t

abbrev pub sort_ports : List ℕ → List ℕ
sort_ports = Sort.sort ltb

unfoldable pub ports_or_default : List ℕ → List ℕ
ports_or_default p = if is_empty p then 443 ∷ [] else sort_ports p

abbrev pub or_default : Bytes → Bytes → Bytes
or_default v def = if is_empty v then def else v

-- `m[k] = v` on a map that is written as a list
unfoldable pub put {ℓ} : {V : Type ℓ} → Bytes → V → List (Bytes × V) → List (Bytes × V)
put k v [] = (k, v) ∷ []
put k v ((j, w) ∷ m) = if bytes_beq j k then (k, v) ∷ m else (j, w) ∷ put k v m

-- The node of an ID: the last one, as in the map that the code fills in order.
unfoldable pub find_node : Bytes → List NodeInput → Option NodeInput
find_node id [] = none
find_node id (n ∷ nodes) = elim (find_node id nodes) [
  | some m ↦ some m
  | none ↦ if bytes_beq n.id id then some n else none
]
