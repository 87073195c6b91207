-- ===== src/Proxy/Session.antt =====
-- `handle` and `dohForward` of node/proxy/proxy.go.
use smart_dns_proxy.Prelude.{
  ℕ, ◌+◌, Bool, not, ◌||◌, Option, none, some, List, [], ◌∷◌, ltb, ◌==◌, if◌then◌else◌, nat_eq,
  is_empty, Bytes, bytes_beq, bytes_eq, ok, err,
}
use smart_dns_proxy.Platform.{Platform}
use smart_dns_proxy.Domainset.Host.{normalize_host}
use smart_dns_proxy.Sniff.{SniffError, peek_sni}
use smart_dns_proxy.Tunnel.{TunnelError}
use smart_dns_proxy.Selector.{
  Float, Target, Pool, Attempt, DialResult, connected, denied, exhausted,
}
use smart_dns_proxy.Proxy.{SvcRoute, Proxy, dial, lookup, port_allowed, max_pre_read}

-- A client's connection: what it delivers, and the local port if the address has one.
pub record Client : Type 0 where
  pub stream : Bytes
  pub local_port : Option ℕ

-- the port that the client connected to
unfoldable pub port_of : Client → ℕ
port_of client = elim client.local_port [ none ↦ 443 | some n ↦ if n == 0 then 443 else n ]

-- What the network does in a session: the tries of the targets, the random draws, whether the DoH
-- backend answers, and whether the other side takes the hello.
pub record Network (F : Type 0) : Type 0 where
  pub attempt : Target F → Attempt
  pub draw : ℕ → ℕ → ℕ
  pub backend_up : Bool
  pub takes_hello : Bool

pub data Outcome (F : Type 0) : Type 0 where
  max_sessions invalid_sni sni_not_managed port_not_allowed : Outcome F
  bad_hello : SniffError → Outcome F
  backend_unreachable write_failed : Outcome F
  no_egress : TunnelError → Outcome F
  -- a write to no connection, after a dial with no target and no error
  panicked : Outcome F
  -- to the DoH listener: the bytes replayed
  to_doh : Bytes → Outcome F
  -- to a target, for this host and port: the bytes replayed
  proxied : Target F → Bytes → ℕ → Bytes → Outcome F

module _ {F : Type 0} (fl : Float F) where
  -- `dohForward`: none if the name is not that of the DoH server
  unfoldable pub doh_forward : Proxy F → Network F → Bytes → Bytes → Option (Outcome F)
  doh_forward p net host raw =
      if is_empty p.doh_host || is_empty p.doh_backend || not (bytes_beq host p.doh_host)
      then none
      else if not net.backend_up
      then some backend_unreachable
      else if not net.takes_hello
      then some write_failed
      else some (to_doh raw)

  -- The pool of the route that was found, with what the dial left of it.
  unfoldable pub put_pool : Bytes → Pool F → List (SvcRoute F) → List (SvcRoute F)
  put_pool slug pool [] = []
  put_pool slug pool (r ∷ routes) =
      if bytes_beq r.svc.slug slug
      then record r { pool = pool } ∷ routes
      else r ∷ put_pool slug pool routes

  -- After the dial.
  unfoldable pub relay_to : Network F → Bytes → ℕ → Bytes → DialResult F → Outcome F
  relay_to net host port raw (connected t) =
      if net.takes_hello then proxied t host port raw else write_failed
  relay_to net host port raw (denied t e) = no_egress e
  relay_to net host port raw (exhausted (some e)) = no_egress e
  relay_to net host port raw (exhausted none) = panicked

  unfoldable pub serve_route :
      Proxy F → Network F → Client → Bytes → Bytes → SvcRoute F → Outcome F × Proxy F
  unfolding dial relay_to put_pool port_allowed port_of
  serve_route p net client host raw r =
      let port = port_of client in
      if not (port_allowed r.svc.allowed_ports port)
      then (port_not_allowed, p)
      else let (result, pool) = dial fl host port net.attempt net.draw r.pool in
        (relay_to net host port raw result, record p { routes = put_pool r.svc.slug pool p.routes })

  unfoldable pub serve_host :
      Platform → Proxy F → Network F → Client → Bytes → Bytes → Outcome F × Proxy F
  unfolding lookup serve_route doh_forward
  serve_host pl p net client host raw = elim (lookup pl p host) [
    | some r ↦ serve_route p net client host raw r
    | none ↦ elim (doh_forward p net host raw) [ some o ↦ (o, p) | none ↦ (sni_not_managed, p) ]
  ]

  -- The session, beside so many active ones: its end, and the proxy that it leaves.
  unfoldable pub handle : Platform → Proxy F → Network F → ℕ → Client → Outcome F × Proxy F
  unfolding serve_host max_pre_read
  handle pl p net active client =
      if ltb p.max_sess (active + 1)
      then (max_sessions, p)
      else let peeked = peek_sni pl client.stream (max_pre_read p) in
        elim (peeked.0) [
          | err e ↦ (bad_hello e, p)
          | ok sni ↦ elim (normalize_host pl sni) [
            | err e ↦ (invalid_sni, p)
            | ok host ↦ serve_host pl p net client host (peeked.1)
          ]
        ]
