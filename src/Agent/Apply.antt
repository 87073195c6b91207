-- ===== src/Agent/Apply.antt =====
-- `handleConfig` and `pruneRevisions` of agent/internal/agentcore/agent.go. Each call to the system
-- may fail, which is an argument.
use smart_dns_proxy.Prelude.{
  ℕ, ◌-◌, Bool, true, false, not, ◌&&◌, ◌||◌, Option, none, some, List, [], ltb, if◌then◌else◌,
  nat_eq, take, keep, any, Bytes, codes, bytes_beq, bytes_eq, Result, ok, err,
}
use smart_dns_proxy.Prelude.Sort
use smart_dns_proxy.Model.{NodeConfig}
use smart_dns_proxy.Agent.{
  State, Revision, Agent, AgentError, validate, unread, invalid_json, mkdir_failed, write_failed,
  link_failed, make_dir, write_config,
}

-- `json.Unmarshal`, and SHA-256 in hex
pub record Decoder : Type 0 where
  pub parse : Bytes → Option NodeConfig
  pub sha256_hex : Bytes → Bytes

-- Which calls to the system fail. A write that fails leaves the file as it was, or with some bytes.
pub record Faults : Type 0 where
  pub mkdir : Bool
  pub write : Bool
  pub left : Option Bytes
  pub link_active : Bool
  pub link_previous : Bool
  pub save : Bool
  pub read_dir : Bool

pub record Ack : Type 0 where
  pub applied_revision_id : Bytes
  pub applied_sequence : ℕ
  pub healthy : Bool

unfoldable pub ack_of : Agent → Ack
ack_of a = record {
  applied_revision_id = a.state.applied_revision_id;
  applied_sequence = a.state.applied_sequence;
  healthy = not a.degraded;
}

unfoldable pub set_err : Bytes → Agent → Agent
set_err code a = record a { degraded = true; last_err = code }

abbrev pub is_protected : State → Revision → Bool
is_protected st r = bytes_beq r.name st.applied_revision_id || bytes_beq r.name st.previous_revision

abbrev pub newer : Revision → Revision → Bool
newer a b = ltb b.modified a.modified

-- the size of the map `protected`
abbrev pub protected_count : State → ℕ
protected_count st = if bytes_beq st.applied_revision_id st.previous_revision then 1 else 2

-- Those that are not protected and are kept: the newest.
unfoldable pub spared : ℕ → State → List Revision → List Revision
spared keep_revisions st revisions =
    take (keep_revisions - protected_count st)
      (Sort.sort newer (keep (λ r. not (is_protected st r)) revisions))

abbrev pub named : Bytes → List Revision → Bool
named id revisions = any (λ r. bytes_beq r.name id) revisions

-- `pruneRevisions`; a directory is removed if it is not protected and not spared.
unfoldable pub prune : ℕ → State → List Revision → List Revision
unfolding spared
prune keep_revisions st revisions =
    let left = spared keep_revisions st revisions in
    keep (λ r. is_protected st r || named r.name left) revisions

-- The state after an application.
unfoldable pub next_state : Bytes → NodeConfig → State → State
next_state sha cfg st = record st {
  previous_revision = st.applied_revision_id;
  applied_revision_id = cfg.revision_id;
  applied_sequence = cfg.sequence;
  applied_sha256 = sha;
}

-- The links are swapped, and then the state follows.
unfoldable pub commit : Faults → ℕ → Bytes → Bytes → NodeConfig → Agent → Agent
unfolding write_config prune next_state
commit f now raw sha cfg a =
    let st = next_state sha cfg a.state in
    let written = write_config now cfg.revision_id raw a.disk.revisions in
    record a {
      state = st;
      degraded = false;
      last_err = [];
      disk = record {
        revisions = if f.read_dir then written else prune a.keep_revisions st written;
        active = some cfg.revision_id;
        previous = elim a.disk.active [
          | none ↦ a.disk.previous
          | some target ↦ if f.link_previous then a.disk.previous else some target
        ];
        state = if f.save then a.disk.state else some st;
      };
    }

abbrev pub with_revisions : List Revision → Agent → Agent
with_revisions revisions a = record a { disk = record (a.disk) { revisions = revisions } }

-- The directory is there, and the file is as a failed write left it.
unfoldable pub half_written : Faults → ℕ → Bytes → List Revision → List Revision
unfolding make_dir write_config
half_written f now id revisions = elim f.left [
  | none ↦ make_dir now id revisions
  | some bytes ↦ write_config now id bytes revisions
]

abbrev pub is_applied : Decoder → Agent → Bytes → NodeConfig → Bool
is_applied d a raw cfg =
    bytes_beq cfg.revision_id a.state.applied_revision_id
    && bytes_beq (d.sha256_hex raw) a.state.applied_sha256

-- After the config was found valid.
unfoldable pub apply_config :
    Decoder → Faults → ℕ → Bytes → NodeConfig → Agent → Result AgentError Ack × Agent
unfolding commit half_written ack_of write_config
apply_config d f now raw cfg a =
    if is_applied d a raw cfg
    then (ok (ack_of a), a)
    else if f.mkdir
    then (err mkdir_failed, a)
    else if f.write
    then (err write_failed, with_revisions (half_written f now cfg.revision_id a.disk.revisions) a)
    else if f.link_active
    then (err link_failed, with_revisions (write_config now cfg.revision_id raw a.disk.revisions) a)
    else (
      ok (ack_of (commit f now raw (d.sha256_hex raw) cfg a)),
      commit f now raw (d.sha256_hex raw) cfg a,
    )

-- The handler, on the body of the request: `none` if it cannot be read.
unfoldable pub handle_config :
    Decoder → Faults → ℕ → Option Bytes → Agent → Result AgentError Ack × Agent
unfolding validate apply_config set_err
handle_config d f now none a = (err unread, a)
handle_config d f now (some raw) a = elim (d.parse raw) [
  | none ↦ (err invalid_json, set_err (codes "invalid_json") a)
  | some cfg ↦ elim (validate cfg a.state.node_id a.state.role) [
    | err e ↦ (err e, set_err (codes "validation_failed") a)
    | ok u ↦ apply_config d f now raw cfg a
  ]
]
