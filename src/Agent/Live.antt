-- ===== src/Agent/Live.antt =====
-- The active config of agent/internal/agentcore/agent.go over requests and faults.
use smart_dns_proxy.Prelude.{
  ℕ, ◌≡◌, ◌∙◌, ◌⊎◌, inl, inr, Bool, true, false, not, ◌&&◌, some, arith, nat_eq, Bytes, bytes_beq,
  bytes_eq, Result,
}
use smart_dns_proxy.Model.{NodeConfig}
use smart_dns_proxy.Agent.{Agent, AgentError, is_file_name}
use smart_dns_proxy.Agent.Apply.{Decoder, Faults, Ack, set_err, handle_config}
use smart_dns_proxy.Agent.Files.{write_config-other, half_written-other}
use smart_dns_proxy.Agent.Good.{
  IsLive, Applied, again, no_dir, torn, unlinked, done, Handled, refused, valid,
  handle_config-Handled, commit-IsLive,
}

-- Whether every write and every swap of the active link went well.
abbrev pub went_well : Faults → Bool
went_well f = not f.write && not f.link_active

Applied-IsLive :
    (d : Decoder) (f : Faults) (now : ℕ) (raw : Bytes) (cfg : NodeConfig) (a : Agent)
    (r : Result AgentError Ack × Agent)
    → (went_well f ≡ true) ⊎ (bytes_beq cfg.revision_id a.state.applied_revision_id ≡ false)
    → is_file_name cfg.revision_id ≡ true
    → IsLive d a
    → Applied d f now raw cfg a r
    → IsLive d (r.1)
Applied-IsLive d f now raw cfg a r s named live (again i) = live
Applied-IsLive d f now raw cfg a r s named live no_dir = live
Applied-IsLive d f now raw cfg a r (inl well) named live (torn w) = cc (well, w)
Applied-IsLive d f now raw cfg a r (inr other) named (old, plain, act, content, sha) (torn w) = (
  old,
  plain,
  act,
  half_written-other f now cfg.revision_id a.state.applied_revision_id a.disk.revisions other
      ∙ content,
  sha,
)
Applied-IsLive d f now raw cfg a r (inl well) named live (unlinked l) =
    absurd (clash f.write f.link_active well l)
  where
    clash : (w k : Bool) → (not w && not k) ≡ true → k ≡ true → ⊥
    clash w k h e = ground arith
Applied-IsLive d f now raw cfg a r (inr other) named (old, plain, act, content, sha) (unlinked l) =
    (
      old,
      plain,
      act,
      write_config-other now cfg.revision_id a.state.applied_revision_id raw a.disk.revisions other
          ∙ content,
      sha,
    )
Applied-IsLive d f now raw cfg a r s named live done = commit-IsLive d f now raw cfg a named

-- Let the revision ID of a config in the body be a file name and, when it is the applied revision's
-- own, let the write and the swap of the active link go well. If the active link leads to the applied
-- revision, whose ID is a file name, and the config there has the hash of the state, then this is so
-- after the request too, whatever else the body holds and whichever other calls fail.
pub handle_config-IsLive :
    (d : Decoder) (f : Faults) (now : ℕ) (raw : Bytes) (a : Agent)
    → ((cfg : NodeConfig)
        → d.parse raw ≡ some cfg
        → (is_file_name cfg.revision_id ≡ true)
          × ((went_well f ≡ true)
              ⊎ (bytes_beq cfg.revision_id a.state.applied_revision_id ≡ false)))
    → IsLive d a
    → IsLive d (handle_config d f now (some raw) a).1
handle_config-IsLive d f now raw a s live =
    by_end (handle_config d f now (some raw) a) (handle_config-Handled d f now raw a)
  where
    by_end : (r : Result AgentError Ack × Agent) → Handled d f now raw a r → IsLive d (r.1)
    by_end r (refused x code) = unfold set_err in live
    by_end r (valid cfg r' p v m) =
        let (named, kept) = s cfg p in Applied-IsLive d f now raw cfg a r' kept named live m
