-- ===== src/Model.antt =====
-- shared/model/artifact.go: the contract between the panel and the nodes. The fields that only a
-- log line or a JSON document shows are left out. Counts, sizes and times are natural numbers;
-- priorities may be negative.
use smart_dns_proxy.Prelude.{ℕ, Bool, List, nat_eq, Bytes, bytes_eq}
use smart_dns_proxy.Prelude.Int.{ℤ}
use smart_dns_proxy.Domainset.Matcher.{Set}

pub record ArtifactRef : Type 0 where
  pub node_id : Bytes
  pub kind : Bytes
  pub path : Bytes
  pub sha256 : Bytes
  pub size : ℕ

pub record Manifest : Type 0 where
  pub revision_id : Bytes
  pub sequence : ℕ
  pub created_at : ℕ
  pub compiler_version : Bytes
  pub model_sha256 : Bytes
  pub min_agent_version : Bytes
  pub artifacts : List ArtifactRef
  pub signature : Bytes

pub record EgressTarget : Type 0 where
  pub node_id : Bytes
  pub name : Bytes
  pub endpoint : Bytes
  pub sni : Bytes
  pub priority : ℤ
  pub weight : ℕ

pub record EgressPolicy : Type 0 where
  pub mode : Bytes
  pub targets : List EgressTarget
  pub fail_threshold : ℤ
  pub rise_threshold : ℤ
  pub probe_interval : ℤ
  pub hysteresis_pct : ℤ
  pub hysteresis_ms : ℤ

pub record Service : Type 0 where
  pub slug : Bytes
  pub name : Bytes
  pub priority : ℤ
  pub ttl : ℕ
  pub allowed_ports : List ℕ
  pub udp_mode : Bytes
  pub rules : Set
  pub rule_set_hash : Bytes
  pub ingress_v4 : List Bytes
  pub ingress_v6 : List Bytes
  pub egress : EgressPolicy

pub record DnsAccess : Type 0 where
  pub mode : Bytes
  pub allowed_cidrs : List Bytes
  pub doh_path_tokens : List Bytes
  pub rate_limit_qps : ℕ
  pub rate_limit_burst : ℕ
  pub max_concurrent : ℕ

pub record DnsConfig : Type 0 where
  pub upstream : Bytes
  pub access : DnsAccess
  pub min_ttl : ℕ
  pub max_ttl : ℕ
  pub publish_aaaa : Bool
  pub block_https_rr : Bool
  pub log_queries : Bool
  pub doh_hostname : Bytes
  pub dot_hostname : Bytes

pub record IngressConfig : Type 0 where
  pub client_hello_timeout_ms : ℕ
  pub max_pre_read_bytes : ℕ
  pub dial_timeout_ms : ℕ
  pub idle_timeout_sec : ℕ
  pub max_sessions : ℕ

pub record EgressConfig : Type 0 where
  pub allow : Set
  pub allowed_ports : List ℕ
  pub resolver : Bytes
  pub dial_timeout_ms : ℕ
  pub idle_timeout_sec : ℕ
  pub max_sessions : ℕ
  pub allow_private_destinations : Bool

pub record NodeConfig : Type 0 where
  pub schema_version : ℕ
  pub revision_id : Bytes
  pub sequence : ℕ
  pub node_id : Bytes
  pub node_name : Bytes
  pub role : Bytes
  pub services : List Service
  pub dns : DnsConfig
  pub ingress : IngressConfig
  pub egress : EgressConfig
  pub log_level : Bytes
  pub notes : List Bytes
