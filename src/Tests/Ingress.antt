-- ===== src/Tests/Ingress.antt =====
-- A session of the SNI proxy, from the compiled config to the relay, and a query of the DNS server.
use smart_dns_proxy.Prelude.{
  ℕ, ◌≤◌, ◌<◌, ◌≡◌, refl, ◌⊎◌, inl, inr, true, false, none, some, List, [], ◌∷◌, nat_eq, drop, All,
  Bytes, codes, bytes_eq, ok,
}
use smart_dns_proxy.Prelude.Int.{pos}
use smart_dns_proxy.Tests.{plain}
use smart_dns_proxy.Tests.Choices.{whole, config, narrow, router, www}
use smart_dns_proxy.Tests.Compiles.{desired, codec, output_or, nothing}
use smart_dns_proxy.Tests.Wire.{record_bytes}
use smart_dns_proxy.Domainset.Host.{normalize_host}
use smart_dns_proxy.Sniff.{peek_sni}
use smart_dns_proxy.Netip.{Addr, v4}
use smart_dns_proxy.Model.{NodeConfig, DnsConfig}
use smart_dns_proxy.Compiler.Types.{Output}
use smart_dns_proxy.Compiler.{compile}
use smart_dns_proxy.Compiler.Nodes.{no_dns}
use smart_dns_proxy.Compiler.Shape.{IsRunnable, compile-IsRunnable}
use smart_dns_proxy.Selector.{Target, Attempt}
use smart_dns_proxy.Router.{Router}
use smart_dns_proxy.Relay.{allowed}
use smart_dns_proxy.Proxy.{SvcRoute, Proxy, apply, max_pre_read}
use smart_dns_proxy.Proxy.Session.{Client, Network, Outcome, proxied, handle, port_of}
use smart_dns_proxy.Proxy.Agree.{lookup-agree, svc_of}
use smart_dns_proxy.Proxy.Guard.{handle-proxied, IsRouted}
use smart_dns_proxy.Proxy.Path.{handle-admitted}
use smart_dns_proxy.Dns.{Question, Msg, DnsLib, Upstream, Server}
use smart_dns_proxy.Dns.Handler.{effective_ttl, new_server}
use smart_dns_proxy.Dns.Ingress.{handle-managed}
use smart_dns_proxy.Dns.Records.{IsIngress}
use smart_dns_proxy.Dns.Guard.{IsHonest, address_of, Replies, handle-unmanaged, handle-Replies}
use smart_dns_proxy.Dns.Answer.{effective_ttl_bounds}

abbrev out : Output
out = output_or nothing (compile codec desired)

compile-IsRunnable_example :
    All (λ (c : Bytes × NodeConfig). All IsRunnable (c.1).services) out.configs
unfolding compile
compile-IsRunnable_example = compile-IsRunnable codec desired out refl

abbrev first_or : Bytes × NodeConfig → List (Bytes × NodeConfig) → Bytes × NodeConfig
first_or d [] = d
first_or d (c ∷ cs) = c

-- the config of the ingress node, and that of the egress node
abbrev in_config : Bytes × NodeConfig
in_config = first_or ([], config) out.configs

abbrev out_config : Bytes × NodeConfig
out_config = first_or ([], config) (drop 1 out.configs)

-- Every target is reached.
abbrev net : Network ℕ
net = record {
  attempt = λ t. record {
    dial_error = none;
    handshake_error = none;
    peer = record { write_error = none; replies = 0 ∷ []; read_error = [] };
    micros = 100;
  };
  draw = λ round total. 0;
  backend_up = true;
  takes_hello = true;
}

abbrev client : Client
client = record { stream = record_bytes; local_port = none }

abbrev proxy : Proxy ℕ
proxy = apply whole plain (λ text. none) [] [] (in_config.1)

-- the target of a session, if it was carried to one
abbrev target_or : Target ℕ → Outcome ℕ → Target ℕ
target_or d (proxied t host port raw) = t
target_or d _ = d

abbrev no_target : Target ℕ
no_target = record {
  egress = record {
    node_id = [];
    name = [];
    endpoint = [];
    sni = [];
    priority = pos 0;
    weight = 0;
  };
  healthy = false;
  fails = 0;
  successes = 0;
  latency = 0;
}

abbrev reached : Target ℕ
reached = target_or no_target (handle whole plain proxy net 0 client).0

abbrev raw : Bytes
raw = (peek_sni plain record_bytes 16384).1

handle-proxied_example :
    (0 < proxy.max_sess)
    × ((sni : Bytes) × ((peek_sni plain record_bytes (max_pre_read proxy)).0 ≡ ok sni)
        × (normalize_host plain sni ≡ ok (codes "example.com")))
    × ((peek_sni plain record_bytes (max_pre_read proxy)).1 ≡ raw)
    × (port_of client ≡ 443)
    × ((r : SvcRoute ℕ) × IsRouted whole plain proxy net client reached
          (codes "example.com")
          443
          raw
          r)
unfolding handle apply compile peek_sni normalize_host smart_dns_proxy.Strings.trim_prefix
    smart_dns_proxy.Strings.trim_space smart_dns_proxy.Strings.to_lower
    smart_dns_proxy.Strings.lower_byte smart_dns_proxy.Strings.trim_last
    smart_dns_proxy.Domainset.Host.validate_host smart_dns_proxy.Strings.contains
    smart_dns_proxy.Domainset.Host.check_labels smart_dns_proxy.Strings.split
    smart_dns_proxy.Domainset.Host.check_label smart_dns_proxy.Domainset.Matcher.specificity
    smart_dns_proxy.Domainset.Matcher.compile smart_dns_proxy.Selector.new_pool
    smart_dns_proxy.Tunnel.write_connect
handle-proxied_example =
    handle-proxied whole plain proxy net client 0 reached (codes "example.com") 443 raw refl

handle-admitted_example :
    allowed plain (smart_dns_proxy.Relay.apply plain (out_config.1)) (codes "example.com") 443
    ≡ true
unfolding compile handle apply peek_sni normalize_host smart_dns_proxy.Strings.trim_prefix
    smart_dns_proxy.Strings.trim_space smart_dns_proxy.Strings.to_lower
    smart_dns_proxy.Strings.lower_byte smart_dns_proxy.Strings.trim_last
    smart_dns_proxy.Domainset.Host.validate_host smart_dns_proxy.Strings.contains
    smart_dns_proxy.Domainset.Host.check_labels smart_dns_proxy.Strings.split
    smart_dns_proxy.Domainset.Host.check_label smart_dns_proxy.Domainset.Matcher.specificity
    smart_dns_proxy.Domainset.Matcher.compile smart_dns_proxy.Selector.new_pool
    smart_dns_proxy.Tunnel.write_connect
handle-admitted_example =
    handle-admitted whole plain codec desired out (λ text. none) [] [] in_config out_config net 0
      client reached (codes "example.com") 443 raw refl (inl refl) (inr (inl refl)) refl refl refl

lookup-agree_example :
    svc_of (smart_dns_proxy.Proxy.lookup plain (apply whole plain (λ text. none) [] [] config) www)
    ≡ smart_dns_proxy.Router.lookup plain router www
lookup-agree_example = lookup-agree whole plain (λ text. none) (λ text. none) [] [] config www

-- A library that starts a reply with the ID and the question of the query.
abbrev reply : Msg → ℕ → Msg
reply req code = record {
  id = req.id;
  opcode = 0;
  rcode = code;
  authoritative = false;
  recursion_available = false;
  authenticated_data = false;
  truncated = false;
  question = req.question;
  answer = [];
  ns = [];
  edns = none;
}

abbrev lib : DnsLib
lib = record {
  set_reply = λ req. reply req 0;
  set_rcode = reply;
  set_edns0 = λ m size dnssec. record m { edns = some size };
  truncate = λ m size. m;
  split_domain_name = λ name. name ∷ [];
  parse_ip = λ text. some text;
  to4 = λ ip. some ip;
}

abbrev question : Question
question = record { name = codes "www.example.com."; qtype = 1 }

abbrev query : Msg
query =
    record (reply
      (record {
        id = 7;
        opcode = 0;
        rcode = 0;
        authoritative = false;
        recursion_available = false;
        authenticated_data = false;
        truncated = false;
        question = question ∷ [];
        answer = [];
        ns = [];
        edns = none;
      })
      0) { edns = some 4096 }

abbrev open_config : NodeConfig
open_config = record config {
  services = record narrow { ingress_v4 = codes "192.0.2.1" ∷ codes "192.0.2.2" ∷ [] } ∷ [];
  dns = record no_dns { access = record (no_dns.access) { mode = codes "restricted-public-dot" } };
}

abbrev server : Server
server = new_server 0 (smart_dns_proxy.Router.apply plain (λ text. none) open_config) open_config

abbrev silent : Upstream
silent = record { exchange_udp = λ m a. none; exchange_tcp = λ m a. none; fresh_id = 1 }

abbrev echo : Upstream
echo = record { exchange_udp = λ m a. some m; exchange_tcp = λ m a. none; fresh_id = 1 }

abbrev peer : Addr
peer = v4 1

abbrev answered : Msg × Server
answered =
    elim (smart_dns_proxy.Dns.Handler.handle lib plain server silent 0 5 query peer (codes "udp")
      []) [ none ↦ (query, server) | some r ↦ r ]

handle-managed_example :
    (smart_dns_proxy.Dns.Handler.handle lib plain server echo 9 5 query peer (codes "dot") []
      ≡ some answered)
    × All
        (IsIngress lib open_config.dns
          (record narrow { ingress_v4 = codes "192.0.2.1" ∷ codes "192.0.2.2" ∷ [] })
          (codes "www.example.com."))
        (answered.0).answer
unfolding new_server smart_dns_proxy.Router.apply smart_dns_proxy.Router.lookup
    smart_dns_proxy.Domainset.Matcher.specificity smart_dns_proxy.Router.normalize_qname
    smart_dns_proxy.Strings.to_lower smart_dns_proxy.Strings.is_ascii
    smart_dns_proxy.Strings.trim_last smart_dns_proxy.Domainset.Matcher.compile
    smart_dns_proxy.Strings.lower_byte smart_dns_proxy.Dns.Handler.handle
    smart_dns_proxy.Router.allow_client smart_dns_proxy.Limiter.allow
    smart_dns_proxy.Limiter.new_limiter
handle-managed_example =
    handle-managed lib plain (λ r. refl) (λ r code. refl) (λ r size d. refl) server silent echo 0 9
      5 query peer (codes "udp") (codes "dot") [] question open_config
      (record narrow { ingress_v4 = codes "192.0.2.1" ∷ codes "192.0.2.2" ∷ [] }) (answered.0)
      (answered.1) refl refl refl refl refl

abbrev elsewhere : Msg
elsewhere = record query { question = record { name = codes "other.net."; qtype = 1 } ∷ [] }

abbrev resolved : Msg × Server
resolved =
    elim (smart_dns_proxy.Dns.Handler.handle lib plain server echo 0 5 elsewhere peer (codes "udp")
      []) [ none ↦ (query, server) | some r ↦ r ]

handle-unmanaged_example : IsHonest lib echo (address_of lib server) elsewhere (resolved.0)
unfolding smart_dns_proxy.Router.lookup new_server smart_dns_proxy.Router.apply
    smart_dns_proxy.Domainset.Matcher.specificity smart_dns_proxy.Router.normalize_qname
    smart_dns_proxy.Strings.to_lower smart_dns_proxy.Strings.is_ascii
    smart_dns_proxy.Strings.trim_last smart_dns_proxy.Domainset.Matcher.compile
    smart_dns_proxy.Strings.lower_byte smart_dns_proxy.Dns.Handler.handle
    smart_dns_proxy.Router.allow_client smart_dns_proxy.Limiter.allow
    smart_dns_proxy.Limiter.new_limiter
handle-unmanaged_example =
    handle-unmanaged lib plain server (resolved.1) echo 0 5 elsewhere peer (codes "udp") []
      (record { name = codes "other.net."; qtype = 1 }) (resolved.0) refl refl refl

handle-Replies_example :
    Replies lib server
      (smart_dns_proxy.Dns.Handler.handle lib plain server silent 0 5 query peer (codes "udp") [])
unfolding smart_dns_proxy.Router.apply new_server
handle-Replies_example =
    handle-Replies lib plain (λ text. none) open_config server silent 0 5 query peer (codes "udp")
      [] refl

abbrev capped : DnsConfig
capped = record no_dns { max_ttl = 30 }

effective_ttl_bounds_example :
    let ttl = effective_ttl narrow capped in
    (1 ≤ ttl)
    × ((capped.max_ttl ≡ 0)
        ⊎ ((narrow.ttl ≡ 0) × (capped.min_ttl ≡ 0) × (ttl ≡ 60))
        ⊎ (ttl ≤ capped.max_ttl))
    × ((capped.min_ttl ≤ ttl) ⊎ ((ttl ≡ capped.max_ttl) × (capped.max_ttl < capped.min_ttl)))
effective_ttl_bounds_example = effective_ttl_bounds narrow capped
