-- ===== src/Agent.antt =====
-- agent/internal/agentcore/agent.go: the state of the node agent, its disk, and the check of a config.
-- A revision's directory is named by the revision's ID; the links `active` and `previous` are what
-- directory they name. The clock is an argument. The code joins the ID into a path without a check:
-- the list of directories is what the disk holds for the IDs that are file names, as those that the
-- panel makes are (they are UUIDs). Paths that an ID with a slash, or the ID `..`, leads to are not modelled.
pub mod Apply
pub mod Files
pub mod Good
pub mod Acked
pub mod Live
use smart_dns_proxy.Prelude.{
  ℕ, zero, suc, ◌+◌, ◌-◌, ◌*◌, ◌/◌, ◌%◌, ◌^◌, ◌≤◌, ◌<◌, ◌≡◌, refl, sym, ap, ◌∙◌, ◌≢◌, ◌↔◌, ◌⊎◌, inl,
  inr, Bool, true, false, not, ◌&&◌, ◌||◌, Option, none, some, List, [], ◌∷◌, ◌++◌, map, arith, ltb,
  leb, ◌==◌, if◌then◌else◌, ltb→lt, ltb→le, lt→ltb, leb→le, leb→lt, ==_iff, tests, Bool-cases,
  Option-cases, eq_of_iff, is_some, Eq, nat_eq, beq_refl, length, is_empty, get_or, take, drop,
  keep, any, all, length-append, take-append-drop, take-append, drop-append, length-take,
  length-drop, length-keep-le, All, All-append, All-keep, elem, nodup, elem-append, elem-keep,
  All-elem, elem-All, switch, switch-All, Bytes, codes, bytes_beq, bytes_beq_refl, bytes_beq_iff,
  bytes_eq, bytes_lt, bytes_lt_irrefl, bytes_lt_asymm, bytes_lt_trans, bytes_lt_total, Result, ok,
  err, ◌>>=◌, or_else, >>=-eq-ok, ok-inj, guard-ok,
}
use smart_dns_proxy.Model.{Service, NodeConfig}

-- `State`, without the time of the last application
pub record State : Type 0 where
  pub node_id : Bytes
  pub name : Bytes
  pub role : Bytes
  pub applied_revision_id : Bytes
  pub applied_sequence : ℕ
  pub applied_sha256 : Bytes
  pub previous_revision : Bytes

-- A directory below `revisions`: its name, the time of its last change, its config.json.
pub record Revision : Type 0 where
  pub name : Bytes
  pub modified : ℕ
  pub config : Option Bytes

pub record Disk : Type 0 where
  pub revisions : List Revision
  pub active : Option Bytes
  pub previous : Option Bytes
  pub state : Option State

pub record Agent : Type 0 where
  pub keep_revisions : ℕ
  pub state : State
  pub degraded : Bool
  pub last_err : Bytes
  pub disk : Disk

pub data AgentError : Type 0 where
  unread invalid_json : AgentError
  schema_version : ℕ → AgentError
  other_node other_role unknown_role : Bytes → AgentError
  no_services : AgentError
  no_egress_target no_ingress_address : Bytes → AgentError
  no_ports : AgentError
  mkdir_failed write_failed link_failed : AgentError

unfoldable pub validate_services : List Service → Result AgentError Unit
validate_services [] = ok tt
validate_services (s ∷ services) =
    if is_empty s.egress.targets
    then err (no_egress_target s.slug)
    else if is_empty s.ingress_v4 && is_empty s.ingress_v6
    then err (no_ingress_address s.slug)
    else validate_services services

unfoldable pub validate_role : NodeConfig → Result AgentError Unit
unfolding validate_services
validate_role c =
    if bytes_beq c.role (codes "ingress")
    then if is_empty c.services then err no_services else validate_services c.services
    else if bytes_beq c.role (codes "egress")
    then if is_empty c.egress.allowed_ports then err no_ports else ok tt
    else err (unknown_role c.role)

unfoldable pub validate : NodeConfig → Bytes → Bytes → Result AgentError Unit
unfolding validate_role
validate c node_id role =
    if not (c.schema_version == 1)
    then err (schema_version c.schema_version)
    else if not (is_empty node_id) && not (bytes_beq c.node_id node_id)
    then err (other_node c.node_id)
    else if not (is_empty role) && not (bytes_beq c.role role)
    then err (other_role c.role)
    else validate_role c

-- A revision ID that `filepath.Join` adds to the path of the revisions as one more element.
unfoldable pub is_file_name : Bytes → Bool
is_file_name id =
    not (is_empty id)
    && not (any (λ c. c == 47) id)
    && not (bytes_beq id (codes "."))
    && not (bytes_beq id (codes ".."))

-- The config.json of a revision, if there is one.
unfoldable pub config_of : Bytes → List Revision → Option Bytes
config_of id [] = none
config_of id (r ∷ revisions) = if bytes_beq r.name id then r.config else config_of id revisions

-- `os.MkdirAll` of a revision's directory
unfoldable pub make_dir : ℕ → Bytes → List Revision → List Revision
make_dir now id [] = record { name = id; modified = now; config = none } ∷ []
make_dir now id (r ∷ revisions) =
    if bytes_beq r.name id then r ∷ revisions else r ∷ make_dir now id revisions

-- A write of config.json in the directory.
unfoldable pub write_file : Bytes → Bytes → List Revision → List Revision
write_file id raw [] = []
write_file id raw (r ∷ revisions) =
    if bytes_beq r.name id
    then record r { config = some raw } ∷ revisions
    else r ∷ write_file id raw revisions

unfoldable pub write_config : ℕ → Bytes → Bytes → List Revision → List Revision
unfolding make_dir write_file
write_config now id raw revisions = write_file id raw (make_dir now id revisions)
