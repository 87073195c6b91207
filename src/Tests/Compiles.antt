-- ===== src/Tests/Compiles.antt =====
-- A desired state with one service, and what becomes of it.
use smart_dns_proxy.Prelude.{
  refl, true, false, none, some, [], ◌∷◌, ◌++◌, nat_eq, All, Bytes, codes, bytes_eq, Result, ok,
  err,
}
use smart_dns_proxy.Prelude.Int.{pos}
use smart_dns_proxy.Tests.{plain}
use smart_dns_proxy.Domainset.{suffix}
use smart_dns_proxy.Model.{EgressPolicy}
use smart_dns_proxy.Compiler.Types.{
  ServiceInput, NodeInput, Input as CompileInput, Output, CompileError,
}
use smart_dns_proxy.Compiler.Nodes.{Codec, no_dns, no_ingress, no_egress}
use smart_dns_proxy.Compiler.{compile}
use smart_dns_proxy.Relay.Carries.{Admits, compile-admitted}

abbrev node : Bytes → Bytes → NodeInput
node id role = record {
  id = id;
  name = id;
  role = role;
  public_ipv4 = codes "192.0.2.1";
  public_ipv6 = [];
  relay_endpoint = [];
  relay_sni = [];
  eligible = true;
}

abbrev no_policy : EgressPolicy
no_policy = record {
  mode = [];
  targets = [];
  fail_threshold = pos 0;
  rise_threshold = pos 0;
  probe_interval = pos 0;
  hysteresis_pct = pos 0;
  hysteresis_ms = pos 0;
}

abbrev video : ServiceInput
video = record {
  slug = codes "video";
  name = codes "Video";
  priority = pos 1;
  ttl = 5;
  allowed_ports = [];
  udp_mode = [];
  entries = record { kind = suffix; value = codes "example.com" } ∷ [];
  rule_set_hash = [];
  ingress_nodes = codes "in" ∷ [];
  egress_members = record { node_id = codes "out"; priority = pos 1; weight = 1 } ∷ [];
  egress_mode = [];
  policy = no_policy;
}

abbrev pub desired : CompileInput
desired = record {
  revision_id = codes "r1";
  sequence = 1;
  services = video ∷ [];
  nodes = node (codes "in") (codes "ingress") ∷ node (codes "out") (codes "egress") ∷ [];
  dns = no_dns;
  ingress = no_ingress;
  egress_tuning = no_egress;
  min_agent_ver = [];
  lab_mode = false;
  log_level = [];
  signing_key = none;
  now = 0;
}

abbrev pub codec : Codec
codec = record {
  render = λ cfg. some (cfg.node_id);
  payload = λ man. man.revision_id;
  sha256_hex = λ b. b;
  sign = λ k b. k ++ b;
}

-- what an output holds, if there is one
abbrev pub output_or : Output → Result CompileError Output → Output
output_or d (ok out) = out
output_or d (err e) = d

abbrev pub nothing : Output
nothing = record {
  manifest = record {
    revision_id = [];
    sequence = 0;
    created_at = 0;
    compiler_version = [];
    model_sha256 = [];
    min_agent_version = [];
    artifacts = [];
    signature = [];
  };
  artifacts = [];
  configs = [];
  warnings = [];
  summary = record {
    services = 0;
    ingress_nodes = 0;
    egress_nodes = 0;
    total_rules = 0;
    rules_by_service = [];
    lab_mode = false;
  };
}

compile-admitted_example :
    let out = output_or nothing (compile codec desired) in
    All
      (λ c.
        All (λ s. All (λ t. All (Admits plain s t) out.configs) s.egress.targets) ((c.1).services))
      out.configs
unfolding compile
compile-admitted_example =
    compile-admitted plain codec desired (output_or nothing (compile codec desired)) refl
