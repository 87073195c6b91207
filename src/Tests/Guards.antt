-- ===== src/Tests/Guards.antt =====
-- Addresses, the rate limit, and a session of the relay.
use smart_dns_proxy.Prelude.{
  ℕ, ◌+◌, ◌-◌, ◌*◌, ◌^◌, ◌≤◌, ◌≡◌, refl, true, false, ◌&&◌, [], ◌∷◌, arith, if◌then◌else◌, nat_eq,
  is_empty, any, All, Bytes, codes, bytes_beq, bytes_eq, ok, err,
}
use smart_dns_proxy.Tests.{plain}
use smart_dns_proxy.Domainset.Matcher.{Set}
use smart_dns_proxy.Model.{NodeConfig}
use smart_dns_proxy.Netip.{Addr, v4, v6, invalid, Prefix, prefix_beq, prefix4}
use smart_dns_proxy.Netguard.{Net, ip4, is_blocked, check_addrs, resolve}
use smart_dns_proxy.Netguard.Public.{IsPublic, resolve-IsPublic}
use smart_dns_proxy.Netguard.Ranges.{is_within, blocked_ranges, is_blocked-v4, is_blocked-zone}
use smart_dns_proxy.Limiter.{second, fresh}
use smart_dns_proxy.Limiter.Rate.{run, last_time, run_rate}
use smart_dns_proxy.Compiler.Nodes.{no_dns, no_ingress, no_egress}
use smart_dns_proxy.Tunnel.{connect_frame}
use smart_dns_proxy.Relay.{Relay, apply, Conn, Dialer, handle}
use smart_dns_proxy.Relay.Guard.{Permitted, handle-guarded}

abbrev web : Addr
web = v4 (ip4 93 184 216 34)

-- No text is a literal address; every name has a private address and a public one.
abbrev net : Net
net = record {
  parse_addr =
      λ text. if bytes_beq text (codes "93.184.216.34") then ok web else err (codes "no address");
  split_host = λ text. ok text;
  lookup_ip = λ host. ok (v4 (ip4 10 0 0 1) ∷ web ∷ []);
}

is_blocked-v4_example : is_blocked web ≡ any (is_within (ip4 93 184 216 34)) blocked_ranges
is_blocked-v4_example = is_blocked-v4 (ip4 93 184 216 34) (omega arith)

-- fe80::1%eth0
is_blocked-zone_example : is_blocked (v6 (0xfe80 * 2 ^ 112 + 1) (codes "eth0")) ≡ false
is_blocked-zone_example =
    is_blocked-zone (0xfe80 * 2 ^ 112 + 1) 101 (codes "th0") (λ e. omega arith)

resolve-IsPublic_example : (is_empty (web ∷ []) ≡ false) × All IsPublic (web ∷ [])
unfolding resolve is_blocked
resolve-IsPublic_example = resolve-IsPublic net (codes "example.com") (web ∷ []) refl

run_rate_example :
    (run 1 2 (fresh 2 5) (5 ∷ 6 ∷ 7 ∷ (5 + second) ∷ [])).1 * second
    ≤ 2 * second + (last_time 5 (5 ∷ 6 ∷ 7 ∷ (5 + second) ∷ []) - 5) * 1
run_rate_example = run_rate 1 2 5 (5 ∷ 6 ∷ 7 ∷ (5 + second) ∷ []) (ground arith)

abbrev config : NodeConfig
config = record {
  schema_version = 1;
  revision_id = codes "r1";
  sequence = 1;
  node_id = codes "n1";
  node_name = codes "out";
  role = codes "egress";
  services = [];
  dns = no_dns;
  ingress = no_ingress;
  egress = record no_egress {
    allow = record { exact_names = []; suffixes = codes "example.com" ∷ []; patterns = [] };
    allowed_ports = 443 ∷ [];
  };
  log_level = [];
  notes = [];
}

abbrev dialer : Dialer
dialer = record { join = λ a port. codes "93.184.216.34"; connect = λ a port. true }

abbrev conn : Conn
conn = record {
  is_tls = true;
  handshake_ok = true;
  has_client_cert = true;
  stream = connect_frame (codes "www.example.com") 443;
  read_error = [];
  takes_status = true;
}

abbrev relay : Relay
relay = apply plain config

handle-guarded_example :
    ((conn.is_tls && conn.handshake_ok && conn.has_client_cert) ≡ true)
    × ((host : Bytes) × (port : ℕ) × Permitted plain relay conn host port)
    × (relay.cfg.allow_private_destinations ≡ false
        → All IsPublic (handle plain net dialer relay 0 conn).connects)
unfolding handle apply connect_frame resolve smart_dns_proxy.Tunnel.read_connect
    smart_dns_proxy.Domainset.Host.normalize_host smart_dns_proxy.Strings.trim_prefix
    smart_dns_proxy.Strings.trim_space smart_dns_proxy.Strings.trim_last
    smart_dns_proxy.Domainset.Host.validate_host smart_dns_proxy.Strings.to_lower
    smart_dns_proxy.Strings.contains smart_dns_proxy.Strings.lower_byte
    smart_dns_proxy.Domainset.Host.check_labels smart_dns_proxy.Strings.split
    smart_dns_proxy.Domainset.Host.check_label smart_dns_proxy.Domainset.Matcher.compile
    smart_dns_proxy.Domainset.Host.check_bytes smart_dns_proxy.Domainset.Host.is_label_byte
    smart_dns_proxy.Domainset.Matcher.match smart_dns_proxy.Domainset.Matcher.match_loop
    smart_dns_proxy.Netguard.dial_control is_blocked smart_dns_proxy.Netguard.public_only
    smart_dns_proxy.Netip.contains smart_dns_proxy.Netip.unmap smart_dns_proxy.Relay.allowed
    smart_dns_proxy.Relay.answer smart_dns_proxy.Relay.dial_first smart_dns_proxy.Relay.serve_host
    smart_dns_proxy.Strings.after_byte smart_dns_proxy.Strings.has_prefix
    smart_dns_proxy.Strings.is_ascii smart_dns_proxy.Strings.is_space smart_dns_proxy.Strings.push
    smart_dns_proxy.Strings.trim_left
handle-guarded_example = handle-guarded plain net dialer relay 0 conn refl
