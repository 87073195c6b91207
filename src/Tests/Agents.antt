-- ===== src/Tests/Agents.antt =====
-- The agent on a good config and on a write that fails.
use smart_dns_proxy.Prelude.{
  ◌≡◌, refl, inl, true, false, none, some, [], ◌∷◌, nat_eq, Bytes, codes, bytes_beq, bytes_eq,
}
use mathlib.Core.Path.{subst}
use smart_dns_proxy.Model.{NodeConfig}
use smart_dns_proxy.Compiler.Nodes.{no_dns, no_ingress, no_egress}
use smart_dns_proxy.Agent.{Agent, is_file_name, config_of, write_failed}
use smart_dns_proxy.Agent.Apply.{Decoder, Faults, Ack, handle_config}
use smart_dns_proxy.Agent.Good.{IsLive, handle_config-error}
use smart_dns_proxy.Agent.Live.{handle_config-IsLive}

abbrev config : NodeConfig
config = record {
  schema_version = 1;
  revision_id = codes "r2";
  sequence = 2;
  node_id = codes "n1";
  node_name = codes "out";
  role = codes "egress";
  services = [];
  dns = no_dns;
  ingress = no_ingress;
  egress = record no_egress { allowed_ports = 443 ∷ [] };
  log_level = [];
  notes = [];
}

config-named : is_file_name config.revision_id ≡ true
unfolding is_file_name
config-named = refl

-- Every request is the config, and the hash of a text is the text.
abbrev decoder : Decoder
decoder = record { parse = λ raw. some config; sha256_hex = λ raw. raw }

parsed-named :
    (raw : Bytes) (cfg : NodeConfig)
    → decoder.parse raw ≡ some cfg
    → is_file_name cfg.revision_id ≡ true
parsed-named raw cfg parsed =
    let same : some config ≡ some cfg = parsed in
    let same_id : config.revision_id ≡ cfg.revision_id = cc in
    subst (λ id. is_file_name id ≡ true) same_id config-named

abbrev faultless : Faults
faultless = record {
  mkdir = false;
  write = false;
  left = none;
  link_active = false;
  link_previous = false;
  save = false;
  read_dir = false;
}

abbrev agent : Agent
agent = record {
  keep_revisions = 1;
  state = record {
    node_id = codes "n1";
    name = codes "out";
    role = codes "egress";
    applied_revision_id = codes "r1";
    applied_sequence = 1;
    applied_sha256 = codes "old";
    previous_revision = [];
  };
  degraded = false;
  last_err = [];
  disk = record {
    revisions = record { name = codes "r1"; modified = 1; config = some (codes "old") } ∷ [];
    active = some (codes "r1");
    previous = none;
    state = none;
  };
}

abbrev raw : Bytes
raw = codes "new"

abbrev torn : Faults
torn = record faultless { write = true }

handle_config-error_example :
    let b = (handle_config decoder torn 9 (some raw) agent).1 in
    (b.state ≡ agent.state)
    × (b.disk.active ≡ agent.disk.active)
    × (b.disk.previous ≡ agent.disk.previous)
    × (b.disk.state ≡ agent.disk.state)
    × ((j : Bytes)
        → ((cfg : NodeConfig) → decoder.parse raw ≡ some cfg → bytes_beq cfg.revision_id j ≡ false)
        → config_of j b.disk.revisions ≡ config_of j agent.disk.revisions)
unfolding handle_config
handle_config-error_example =
    handle_config-error decoder torn 9 raw agent write_failed (parsed-named raw) refl

abbrev ack : Ack
ack = record { applied_revision_id = codes "r2"; applied_sequence = 2; healthy = true }

agent-IsLive : IsLive decoder agent
unfolding config_of is_file_name
agent-IsLive = (codes "old", refl, refl, refl, refl)

handle_config-IsLive_example : IsLive decoder (handle_config decoder faultless 9 (some raw) agent).1
handle_config-IsLive_example =
    handle_config-IsLive decoder faultless 9 raw agent
      (λ cfg parsed. (parsed-named raw cfg parsed, inl refl)) agent-IsLive
