-- ===== src/Compiler/Nodes.antt =====
-- The second half of `Compile`: a config for each node, and the manifest.
use smart_dns_proxy.Prelude.{
  Bool, true, false, not, ◌&&◌, ◌||◌, Option, none, some, List, [], ◌∷◌, ◌++◌, if◌then◌else◌,
  nat_eq, length, is_empty, keep, elem, Bytes, codes, bytes_beq, bytes_eq, bytes_lt, Result, ok,
  err, ◌>>=◌, or_else,
}
use smart_dns_proxy.Prelude.Sort
use smart_dns_proxy.Domainset.Rules.{merge}
use smart_dns_proxy.Domainset.Matcher.{empty_set, new_set}
use smart_dns_proxy.Model.{
  ArtifactRef, Manifest, Service, DnsConfig, IngressConfig, EgressConfig, NodeConfig,
}
use smart_dns_proxy.Compiler.Types.{
  ServiceInput, NodeInput, Input, Warning, empty_allowlist, Summary, Output, CompileError,
  unknown_role, render_failed, or_default, put, sort_ports,
}
use smart_dns_proxy.Compiler.Services.{Build}

-- `json.MarshalIndent`, `json.Marshal`, SHA-256 in hex, and the signature in base64
pub record Codec : Type 0 where
  pub render : NodeConfig → Option Bytes
  pub payload : Manifest → Bytes
  pub sha256_hex : Bytes → Bytes
  pub sign : Bytes → Bytes → Bytes

-- the zero values of Go
abbrev pub no_dns : DnsConfig
no_dns = record {
  upstream = [];
  access = record {
    mode = [];
    allowed_cidrs = [];
    doh_path_tokens = [];
    rate_limit_qps = 0;
    rate_limit_burst = 0;
    max_concurrent = 0;
  };
  min_ttl = 0;
  max_ttl = 0;
  publish_aaaa = false;
  block_https_rr = false;
  log_queries = false;
  doh_hostname = [];
  dot_hostname = [];
}

abbrev pub no_ingress : IngressConfig
no_ingress = record {
  client_hello_timeout_ms = 0;
  max_pre_read_bytes = 0;
  dial_timeout_ms = 0;
  idle_timeout_sec = 0;
  max_sessions = 0;
}

abbrev pub no_egress : EgressConfig
no_egress = record {
  allow = empty_set;
  allowed_ports = [];
  resolver = [];
  dial_timeout_ms = 0;
  idle_timeout_sec = 0;
  max_sessions = 0;
  allow_private_destinations = false;
}

-- `member[slug]` of `servicesForIngress`
unfoldable pub is_member : Bytes → Bytes → List ServiceInput → Bool
is_member node_id slug [] = false
is_member node_id slug (s ∷ inputs) =
    (bytes_beq s.slug slug && elem node_id s.ingress_nodes) || is_member node_id slug inputs

unfoldable pub services_for_ingress : List Service → Bytes → List ServiceInput → List Service
unfolding is_member
services_for_ingress compiled node_id inputs = keep (λ s. is_member node_id s.slug inputs) compiled

abbrev pub no_ipv6_note : Bytes
no_ipv6_note = codes "AAAA publication disabled: this ingress has no IPv6 address"

abbrev pub lab_note : Bytes
lab_note =
    codes
      "LAB MODE: private and loopback destinations are reachable; never use this configuration in production"

abbrev pub note_if : Bool → Bytes → List Bytes
note_if true note = note ∷ []
note_if false note = []

unfoldable pub ingress_node : Input → List Service → NodeInput → NodeConfig
unfolding services_for_ingress
ingress_node inp compiled n =
    let no_v6 = inp.dns.publish_aaaa && is_empty n.public_ipv6 in
    record {
      schema_version = 1;
      revision_id = inp.revision_id;
      sequence = inp.sequence;
      node_id = n.id;
      node_name = n.name;
      role = n.role;
      services = services_for_ingress compiled n.id inp.services;
      dns = if no_v6 then record (inp.dns) { publish_aaaa = false } else inp.dns;
      ingress = inp.ingress;
      egress = no_egress;
      log_level = inp.log_level;
      notes = note_if no_v6 no_ipv6_note ++ note_if inp.lab_mode lab_note;
    }

unfoldable pub egress_node : Input → Build → NodeInput → NodeConfig
unfolding merge new_set
egress_node inp b n = record {
  schema_version = 1;
  revision_id = inp.revision_id;
  sequence = inp.sequence;
  node_id = n.id;
  node_name = n.name;
  role = n.role;
  services = [];
  dns = no_dns;
  ingress = no_ingress;
  egress = record (inp.egress_tuning) {
    allow = new_set (merge (b.allow n.id) []);
    allowed_ports = sort_ports (b.ports n.id);
    allow_private_destinations = inp.lab_mode;
  };
  log_level = inp.log_level;
  notes = note_if inp.lab_mode lab_note;
}

abbrev pub is_ingress : NodeInput → Bool
is_ingress n = bytes_beq n.role (codes "ingress")

abbrev pub is_egress : NodeInput → Bool
is_egress n = bytes_beq n.role (codes "egress")

-- `switch n.Role`
unfoldable pub node_config : Input → Build → NodeInput → Result CompileError NodeConfig
unfolding ingress_node egress_node
node_config inp b n =
    if is_ingress n
    then ok (ingress_node inp b.compiled n)
    else if is_egress n
    then ok (egress_node inp b n)
    else err (unknown_role n.name n.role)

unfoldable pub node_warnings : Build → NodeInput → List Warning
unfolding merge
node_warnings b n =
    if not (is_ingress n) && is_egress n && is_empty (merge (b.allow n.id) [])
    then empty_allowlist n.name ∷ []
    else []

-- What the loop over the nodes fills.
pub record Rendered : Type 0 where
  pub artifacts : List (Bytes × Bytes)
  pub configs : List (Bytes × NodeConfig)
  pub warnings : List Warning

abbrev pub none_rendered : List Warning → Rendered
none_rendered ws = record { artifacts = []; configs = []; warnings = ws }

unfoldable pub add_node :
    Codec → Input → Build → NodeInput → Rendered → Result CompileError Rendered
unfolding node_config node_warnings put
add_node codec inp b n r = do
  cfg ← node_config inp b n
  bytes ← or_else (codec.render cfg) (render_failed n.name)
  ok (record {
    artifacts = put n.id bytes r.artifacts;
    configs = put n.id cfg r.configs;
    warnings = r.warnings ++ node_warnings b n;
  })

unfoldable pub add_nodes :
    Codec → Input → Build → List NodeInput → Rendered → Result CompileError Rendered
unfolding add_node
add_nodes codec inp b [] r = ok r
add_nodes codec inp b (n ∷ nodes) r = do
  r' ← add_node codec inp b n r
  add_nodes codec inp b nodes r'

unfoldable pub artifact_refs : Codec → List (Bytes × Bytes) → List ArtifactRef
artifact_refs codec [] = []
artifact_refs codec ((id, b) ∷ artifacts) =
    record {
      node_id = id;
      kind = codes "node-config";
      path = codes "config.json";
      sha256 = codec.sha256_hex b;
      size = length b;
    }
    ∷ artifact_refs codec artifacts

-- the text `h` that the model's hash is of
unfoldable pub digest_text : List ArtifactRef → Bytes
digest_text [] = []
digest_text (a ∷ refs) = a.node_id ++ codes ":" ++ a.sha256 ++ codes "\n" ++ digest_text refs

abbrev by_id : Bytes × Bytes → Bytes × Bytes → Bool
by_id a b = bytes_lt a.0 b.0

-- `SigningPayload` is of the manifest without its signature.
unfoldable pub manifest_of : Codec → Input → List (Bytes × Bytes) → Manifest
unfolding artifact_refs digest_text
manifest_of codec inp artifacts =
    let refs = artifact_refs codec (Sort.sort by_id artifacts) in
    let man : Manifest = record {
      revision_id = inp.revision_id;
      sequence = inp.sequence;
      created_at = inp.now;
      compiler_version = codes "1.0.0";
      model_sha256 = codec.sha256_hex (digest_text refs);
      min_agent_version = or_default inp.min_agent_ver (codes "1.0.0");
      artifacts = refs;
      signature = [];
    } in
    elim inp.signing_key [
      | none ↦ man
      | some key ↦ record man { signature = codec.sign key (codec.payload man) }
    ]

unfoldable pub summary_of : Input → Build → Summary
summary_of inp b = record {
  services = length b.compiled;
  ingress_nodes = length (keep is_ingress inp.nodes);
  egress_nodes = length (keep (λ n. not (is_ingress n) && is_egress n) inp.nodes);
  total_rules = b.total_rules;
  rules_by_service = b.rules_by_service;
  lab_mode = inp.lab_mode;
}

abbrev pub sort_services : List Service → List Service
sort_services = Sort.sort (λ a b. bytes_lt a.slug b.slug)

unfoldable pub finish : Codec → Input → Build → Result CompileError Output
unfolding add_nodes manifest_of summary_of
finish codec inp b = do
  r ←
      add_nodes codec inp (record b { compiled = sort_services b.compiled }) inp.nodes
        (none_rendered b.warnings)
  ok (record {
    manifest = manifest_of codec inp r.artifacts;
    artifacts = r.artifacts;
    configs = r.configs;
    warnings = r.warnings;
    summary = summary_of inp b;
  })
