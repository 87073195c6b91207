-- ===== src/Agent/Acked.antt =====
-- What a request that the agent of agent/internal/agentcore/agent.go acknowledges has changed.
use smart_dns_proxy.Prelude.{◌≡◌, false, some, nat_eq, Bytes, bytes_eq}
use smart_dns_proxy.Model.{NodeConfig}
use smart_dns_proxy.Agent.{Agent, config_of}
use smart_dns_proxy.Agent.Apply.{Decoder, Ack, is_applied}

-- The config is the applied one: its ID and the hash of the body are in the state, the acknowledgement
-- names it, and unless it had been applied before, the active link leads to the bytes of the body.
abbrev pub IsAcked : Decoder → Bytes → Agent → Ack → Agent → NodeConfig → Type 0
IsAcked d raw a ack b cfg =
    (b.state.applied_revision_id ≡ cfg.revision_id)
    × (b.state.applied_sha256 ≡ d.sha256_hex raw)
    × (ack.applied_revision_id ≡ cfg.revision_id)
    × (is_applied d a raw cfg ≡ false
        → (b.disk.active ≡ some cfg.revision_id)
          × (config_of cfg.revision_id b.disk.revisions ≡ some raw))
