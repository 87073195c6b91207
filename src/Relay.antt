-- ===== src/Relay.antt =====
-- node/relay/relay.go: the egress relay. `handle` is one session from its accept to the splice; the
-- dial is a parameter. The count of active sessions is what the other sessions hold.
pub mod Guard
pub mod Carries
use smart_dns_proxy.Prelude.{
  ℕ, zero, suc, ◌+◌, ◌-◌, ◌*◌, ◌/◌, ◌%◌, ◌^◌, ◌≤◌, ◌<◌, ◌≡◌, refl, sym, ap, ◌∙◌, ◌≢◌, ◌↔◌, ◌⊎◌, inl,
  inr, Bool, true, false, not, ◌&&◌, ◌||◌, Option, none, some, List, [], ◌∷◌, ◌++◌, map, arith, ltb,
  leb, ◌==◌, if◌then◌else◌, ltb→lt, ltb→le, lt→ltb, leb→le, leb→lt, ==_iff, tests, Bool-cases,
  Option-cases, eq_of_iff, is_some, Eq, nat_eq, beq_refl, length, is_empty, get_or, take, drop,
  keep, any, all, length-append, take-append-drop, take-append, drop-append, length-take,
  length-drop, length-keep-le, All, All-append, All-keep, elem, nodup, elem-append, elem-keep,
  All-elem, elem-All, switch, switch-All, Bytes, codes, bytes_beq, bytes_beq_refl, bytes_beq_iff,
  bytes_eq, bytes_lt, bytes_lt_irrefl, bytes_lt_asymm, bytes_lt_trans, bytes_lt_total, Result, ok,
  err, ◌>>=◌, or_else, >>=-eq-ok, ok-inj, guard-ok,
}
use smart_dns_proxy.Platform.{Platform}
use smart_dns_proxy.Domainset.Host.{normalize_host}
use smart_dns_proxy.Domainset.Matcher.{Matcher, match}
use smart_dns_proxy.Domainset.Matcher.{compile as compile_set}
use smart_dns_proxy.Model.{EgressConfig, NodeConfig}
use smart_dns_proxy.Netip.{Addr}
use smart_dns_proxy.Netguard.{Net, resolve, dial_control}
use smart_dns_proxy.Tunnel.{read_connect, status_ok, status_denied, status_dns, status_dial}

pub record Relay : Type 0 where
  pub allow : Matcher
  pub ports : List ℕ
  pub cfg : EgressConfig
  pub max_sess : ℕ

-- `Apply`
unfoldable pub apply : Platform → NodeConfig → Relay
apply pl c = record {
  allow = compile_set pl c.egress.allow;
  ports = if is_empty c.egress.allowed_ports then 443 ∷ [] else c.egress.allowed_ports;
  cfg = c.egress;
  max_sess = if c.egress.max_sessions == 0 then 10000 else c.egress.max_sessions;
}

unfoldable pub allowed : Platform → Relay → Bytes → ℕ → Bool
unfolding match
allowed pl r host port = elem port r.ports && match pl (some r.allow) host

-- What a connection from an ingress turns out to be.
pub record Conn : Type 0 where
  pub is_tls : Bool
  pub handshake_ok : Bool
  pub has_client_cert : Bool
  pub stream : Bytes
  pub read_error : Bytes
  pub takes_status : Bool

-- `net.JoinHostPort` of an address, and whether a connect to it succeeds
pub record Dialer : Type 0 where
  pub join : Addr → ℕ → Bytes
  pub connect : Addr → ℕ → Bool

pub data Outcome : Type 0 where
  max_sessions not_tls handshake_failed no_client_cert bad_frame : Outcome
  bad_host denied resolve_blocked dial_failed client_gone : Outcome
  relayed : Bytes → ℕ → Addr → Outcome

-- How the session ended, the status byte written to the ingress, and the addresses that a connect
-- was made to, in order.
pub record Session : Type 0 where
  pub outcome : Outcome
  pub status : Option ℕ
  pub connects : List Addr

abbrev pub ends : Outcome → Option ℕ → Session
ends o st = record { outcome = o; status = st; connects = [] }

-- The loop over the addresses: those tried, and the first that answered. The dialer's control
-- function runs before each connect.
unfoldable pub dial_first : Net → Dialer → Bool → ℕ → List Addr → List Addr × Option Addr
unfolding dial_control
dial_first net d lab port [] = ([], none)
dial_first net d lab port (a ∷ addrs) =
    let rest = dial_first net d lab port addrs in
    elim (dial_control net lab (d.join a port)) [
      | err e ↦ rest
      | ok u ↦ if d.connect a port then (a ∷ [], some a) else (a ∷ rest.0, rest.1)
    ]

-- After the dial.
unfoldable pub answer : Conn → Bytes → ℕ → List Addr × Option Addr → Session
answer conn host port (tried, none) = record {
  outcome = dial_failed;
  status = some status_dial;
  connects = tried;
}
answer conn host port (tried, some a) = record {
  outcome = if conn.takes_status then relayed host port a else client_gone;
  status = some status_ok;
  connects = tried;
}

-- After the frame was read.
unfoldable pub serve_host : Platform → Net → Dialer → Relay → Conn → Bytes → ℕ → Session
unfolding allowed dial_first answer
serve_host pl net d r conn raw port = elim (normalize_host pl raw) [
  | err e ↦ ends bad_host (some status_denied)
  | ok host ↦
      if not (allowed pl r host port)
      then ends denied (some status_denied)
      else elim (resolve net host r.cfg.allow_private_destinations) [
        | err e ↦ ends resolve_blocked (some status_dns)
        | ok addrs ↦
            answer conn host port (dial_first net d r.cfg.allow_private_destinations port addrs)
      ]
]

unfoldable pub handle : Platform → Net → Dialer → Relay → ℕ → Conn → Session
unfolding serve_host
handle pl net d r active conn =
    if ltb r.max_sess (active + 1)
    then ends max_sessions none
    else if not conn.is_tls
    then ends not_tls none
    else if not conn.handshake_ok
    then ends handshake_failed none
    else if not conn.has_client_cert
    then ends no_client_cert none
    else elim (read_connect conn.read_error conn.stream) [
      | err e ↦ ends bad_frame none
      | ok f ↦ serve_host pl net d r conn (f.0) (f.1)
    ]
