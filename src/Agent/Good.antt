-- ===== src/Agent/Good.antt =====
-- The active config of the agent in agent/internal/agentcore/agent.go, over requests and faults.
use smart_dns_proxy.Prelude.{
  ℕ, ◌≡◌, refl, ◌∙◌, Bool, true, false, Option, none, some, List, if◌then◌else◌, nat_eq, Bytes,
  codes, bytes_beq, bytes_beq_refl, bytes_eq, Result, ok, err,
}
use smart_dns_proxy.Model.{NodeConfig}
use smart_dns_proxy.Agent.{
  Revision, Agent, AgentError, validate, is_file_name, config_of, write_config, mkdir_failed,
  write_failed, link_failed,
}
use smart_dns_proxy.Agent.Apply.{
  Decoder, Faults, Ack, ack_of, set_err, is_applied, next_state, prune, commit, half_written,
  with_revisions, apply_config, handle_config,
}
use smart_dns_proxy.Agent.Files.{
  write_config-other, write_config-same, half_written-other, prune-protected,
}

-- The active link names the applied revision, whose ID is a file name and whose config is on the disk
-- and has the hash of the state.
abbrev pub IsLive : Decoder → Agent → Type 0
IsLive d a =
    (raw : Bytes) × (is_file_name a.state.applied_revision_id ≡ true)
    × (a.disk.active ≡ some a.state.applied_revision_id)
    × (config_of a.state.applied_revision_id a.disk.revisions ≡ some raw)
    × (d.sha256_hex raw ≡ a.state.applied_sha256)

-- The agent runs what it ran: its state, its links and all configs but that of the ID.
abbrev pub IsKept : Bytes → Agent → Agent → Type 0
IsKept id a b =
    (b.state ≡ a.state)
    × (b.disk.active ≡ a.disk.active)
    × (b.disk.previous ≡ a.disk.previous)
    × (b.disk.state ≡ a.disk.state)
    × ((j : Bytes)
        → bytes_beq id j ≡ false
        → config_of j b.disk.revisions ≡ config_of j a.disk.revisions)

pub commit-content :
    (d : Decoder) (f : Faults) (now : ℕ) (raw : Bytes) (cfg : NodeConfig) (a : Agent)
    → config_of cfg.revision_id (commit f now raw (d.sha256_hex raw) cfg a).disk.revisions
      ≡ some raw
unfolding commit next_state
commit-content d f now raw cfg a = by_dir f.read_dir
  where
    written : List Revision
    written = write_config now cfg.revision_id raw a.disk.revisions

    by_dir :
        (b : Bool)
        → config_of cfg.revision_id (
            if b
            then written
            else prune a.keep_revisions (next_state (d.sha256_hex raw) cfg a.state) written)
          ≡ some raw
    by_dir true = write_config-same now cfg.revision_id raw a.disk.revisions
    by_dir false =
        prune-protected a.keep_revisions (next_state (d.sha256_hex raw) cfg a.state) written
          cfg.revision_id (rw (bytes_beq_refl cfg.revision_id) refl)
        ∙ write_config-same now cfg.revision_id raw a.disk.revisions

pub commit-IsLive :
    (d : Decoder) (f : Faults) (now : ℕ) (raw : Bytes) (cfg : NodeConfig) (a : Agent)
    → is_file_name cfg.revision_id ≡ true
    → IsLive d (commit f now raw (d.sha256_hex raw) cfg a)
unfolding commit next_state
commit-IsLive d f now raw cfg a named = (raw, named, refl, commit-content d f now raw cfg a, refl)

-- What `apply_config` returns, by the call that failed.
pub data Applied (d : Decoder) (f : Faults) (now : ℕ) (raw : Bytes) (cfg : NodeConfig) (a : Agent)
    : Result AgentError Ack × Agent → Type 0 where
  again : is_applied d a raw cfg ≡ true → Applied d f now raw cfg a (ok (ack_of a), a)
  no_dir : Applied d f now raw cfg a (err mkdir_failed, a)
  torn :
      f.write ≡ true
      → Applied d f now raw cfg a
          (err write_failed, with_revisions (half_written f now cfg.revision_id a.disk.revisions) a)
  unlinked :
      f.link_active ≡ true
      → Applied d f now raw cfg a (
        err link_failed,
        with_revisions (write_config now cfg.revision_id raw a.disk.revisions) a,
      )
  done : Applied d f now raw cfg a (
    ok (ack_of (commit f now raw (d.sha256_hex raw) cfg a)),
    commit f now raw (d.sha256_hex raw) cfg a,
  )

apply_config-Applied :
    (d : Decoder) (f : Faults) (now : ℕ) (raw : Bytes) (cfg : NodeConfig) (a : Agent)
    → Applied d f now raw cfg a (apply_config d f now raw cfg a)
unfolding apply_config
apply_config-Applied d f now raw cfg a =
    guards (is_applied d a raw cfg) f.mkdir f.write f.link_active refl refl refl
  where
    guards :
        (i m w l : Bool)
        → is_applied d a raw cfg ≡ i
        → f.write ≡ w
        → f.link_active ≡ l
        → Applied d f now raw cfg a (
            if i
            then (ok (ack_of a), a)
            else if m
            then (err mkdir_failed, a)
            else if w
            then (
              err write_failed,
              with_revisions (half_written f now cfg.revision_id a.disk.revisions) a,
            )
            else if l
            then (
              err link_failed,
              with_revisions (write_config now cfg.revision_id raw a.disk.revisions) a,
            )
            else (
              ok (ack_of (commit f now raw (d.sha256_hex raw) cfg a)),
              commit f now raw (d.sha256_hex raw) cfg a,
            ))
    guards true m w l e e' e'' = again e
    guards false true w l e e' e'' = no_dir
    guards false false true l e e' e'' = torn e'
    guards false false false true e e' e'' = unlinked e''
    guards false false false false e e' e'' = done

Applied-error :
    (d : Decoder) (f : Faults) (now : ℕ) (raw : Bytes) (cfg : NodeConfig) (a : Agent)
    (r : Result AgentError Ack × Agent) (e : AgentError)
    → Applied d f now raw cfg a r
    → r.0 ≡ err e
    → IsKept cfg.revision_id a (r.1)
Applied-error d f now raw cfg a r e (again i) q = cc
Applied-error d f now raw cfg a r e no_dir q = (refl, refl, refl, refl, λ j h. refl)
Applied-error d f now raw cfg a r e (torn w) q =
    (refl, refl, refl, refl, λ j h. half_written-other f now cfg.revision_id j a.disk.revisions h)
Applied-error d f now raw cfg a r e (unlinked l) q =
    (refl, refl, refl, refl, λ j h. write_config-other now cfg.revision_id j raw a.disk.revisions h)
Applied-error d f now raw cfg a r e done q = cc

-- How a request ends.
pub data Handled (d : Decoder) (f : Faults) (now : ℕ) (raw : Bytes) (a : Agent)
    : Result AgentError Ack × Agent → Type 0 where
  refused : (e : AgentError) (code : Bytes) → Handled d f now raw a (err e, set_err code a)
  valid :
      (cfg : NodeConfig) (r : Result AgentError Ack × Agent)
      → d.parse raw ≡ some cfg
      → validate cfg a.state.node_id a.state.role ≡ ok tt
      → Applied d f now raw cfg a r
      → Handled d f now raw a r

pub handle_config-Handled :
    (d : Decoder) (f : Faults) (now : ℕ) (raw : Bytes) (a : Agent)
    → Handled d f now raw a (handle_config d f now (some raw) a)
unfolding handle_config
handle_config-Handled d f now raw a = by_parse (d.parse raw) refl
  where
    by_check :
        (cfg : NodeConfig) (v : Result AgentError Unit)
        → d.parse raw ≡ some cfg
        → validate cfg a.state.node_id a.state.role ≡ v
        → Handled d f now raw a (elim v as (λ _. Result AgentError Ack × Agent) [
          | err e ↦ (err e, set_err (codes "validation_failed") a)
          | ok u ↦ apply_config d f now raw cfg a
        ])
    by_check cfg (err e) p v = refused e (codes "validation_failed")
    by_check cfg (ok u) p v =
        valid cfg (apply_config d f now raw cfg a) p v (apply_config-Applied d f now raw cfg a)

    by_parse :
        (o : Option NodeConfig)
        → d.parse raw ≡ o
        → Handled d f now raw a (elim o as (λ _. Result AgentError Ack × Agent) [
          | none ↦ (err AgentError.invalid_json, set_err (codes "invalid_json") a)
          | some cfg ↦
              elim (validate cfg a.state.node_id a.state.role)
                as (λ _. Result AgentError Ack × Agent) [
                  | err e ↦ (err e, set_err (codes "validation_failed") a)
                  | ok u ↦ apply_config d f now raw cfg a
                ]
        ])
    by_parse none p = refused AgentError.invalid_json (codes "invalid_json")
    by_parse (some cfg) p = by_check cfg (validate cfg a.state.node_id a.state.role) p refl

-- If the revision ID of a config in the body is a file name, a request that is answered with an error
-- leaves the state of the agent, in memory and on the disk, and both links as they were; and it leaves
-- every config as it was, but that of the revision in the body, which is written in place: when it is
-- the applied revision's, the active config may have changed.
pub handle_config-error :
    (d : Decoder) (f : Faults) (now : ℕ) (raw : Bytes) (a : Agent) (e : AgentError)
    → ((cfg : NodeConfig) → d.parse raw ≡ some cfg → is_file_name cfg.revision_id ≡ true)
    → (handle_config d f now (some raw) a).0 ≡ err e
    → let b = (handle_config d f now (some raw) a).1 in
      (b.state ≡ a.state)
      × (b.disk.active ≡ a.disk.active)
      × (b.disk.previous ≡ a.disk.previous)
      × (b.disk.state ≡ a.disk.state)
      × ((j : Bytes)
          → ((cfg : NodeConfig) → d.parse raw ≡ some cfg → bytes_beq cfg.revision_id j ≡ false)
          → config_of j b.disk.revisions ≡ config_of j a.disk.revisions)
handle_config-error d f now raw a e names q =
    by_end (handle_config d f now (some raw) a) (handle_config-Handled d f now raw a) q
  where
    by_end :
        (r : Result AgentError Ack × Agent)
        → Handled d f now raw a r
        → r.0 ≡ err e
        → ((r.1).state ≡ a.state)
          × ((r.1).disk.active ≡ a.disk.active)
          × ((r.1).disk.previous ≡ a.disk.previous)
          × ((r.1).disk.state ≡ a.disk.state)
          × ((j : Bytes)
              → ((cfg : NodeConfig) → d.parse raw ≡ some cfg → bytes_beq cfg.revision_id j ≡ false)
              → config_of j (r.1).disk.revisions ≡ config_of j a.disk.revisions)
    by_end r (refused x code) q = unfold set_err in (refl, refl, refl, refl, λ j h. refl)
    by_end r (valid cfg r' p v m) q =
        let (st, act, prev, saved, others) = Applied-error d f now raw cfg a r' e m q in
        (st, act, prev, saved, λ j h. others j (h cfg p))
