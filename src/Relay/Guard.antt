-- ===== src/Relay/Guard.antt =====
-- `handle` of node/relay/relay.go: what it connects to.
use smart_dns_proxy.Prelude.{
  ℕ, ◌+◌, ◌≡◌, refl, Bool, true, false, not, ◌&&◌, Option, none, some, List, [], ◌∷◌, ltb,
  if◌then◌else◌, nat_eq, is_empty, All, Bytes, bytes_eq, Result, ok, err,
}
use smart_dns_proxy.Platform.{Platform}
use smart_dns_proxy.Domainset.Host.{HostError, normalize_host}
use smart_dns_proxy.Netip.{Addr}
use smart_dns_proxy.Netguard.{Net, GuardError, resolve, dial_control}
use smart_dns_proxy.Netguard.Public.{IsPublic, resolve-IsPublic}
use smart_dns_proxy.Tunnel.{TunnelError, read_connect, status_denied, status_dns}
use smart_dns_proxy.Relay.{
  Relay, allowed, Conn, Dialer, Session, ends, answer, dial_first, serve_host, handle, max_sessions,
  not_tls, handshake_failed, no_client_cert, bad_frame, bad_host, denied, resolve_blocked,
}

-- A destination that the relay may connect to for this stream.
abbrev pub Permitted : Platform → Relay → Conn → Bytes → ℕ → Type 0
Permitted pl r conn host port =
    (raw : Bytes) × (rest : Bytes) × (read_connect conn.read_error conn.stream
      ≡ ok (raw, port, rest))
    × (normalize_host pl raw ≡ ok host)
    × (allowed pl r host port ≡ true)

dial_first-All :
    (net : Net) (d : Dialer) (lab : Bool) (port : ℕ) (P : Addr → Type 0) (addrs : List Addr)
    → All P addrs
    → All P ((dial_first net d lab port addrs).0)
unfolding dial_first
dial_first-All net d lab port P [] h = tt
dial_first-All net d lab port P (a ∷ addrs) h =
    step (dial_control net lab (d.join a port)) (d.connect a port) (dial_first net d lab port addrs)
      (dial_first-All net d lab port P addrs h.1)
  where
    step :
        (c : Result GuardError Unit) (passes : Bool) (rest : List Addr × Option Addr)
        → All P (rest.0)
        → All P (
            (elim c as (λ _. List Addr × Option Addr) [
              | err e ↦ rest
              | ok u ↦ if passes then (a ∷ [], some a) else (a ∷ rest.0, rest.1)
            ]).0)
    step (err e) passes rest ih = ih
    step (ok u) true rest ih = (h.0, tt)
    step (ok u) false rest ih = (h.0, ih)

answer-connects :
    (conn : Conn) (host : Bytes) (port : ℕ) (tried : List Addr × Option Addr)
    → (answer conn host port tried).connects ≡ tried.0
unfolding answer
answer-connects conn host port (tried, none) = refl
answer-connects conn host port (tried, some a) = refl

abbrev Guarded : Platform → Relay → Conn → Session → Type 0
Guarded pl r conn s =
    is_empty s.connects ≡ false
    → ((conn.is_tls && conn.handshake_ok && conn.has_client_cert) ≡ true)
      × ((host : Bytes) × (port : ℕ) × Permitted pl r conn host port)
      × (r.cfg.allow_private_destinations ≡ false → All IsPublic s.connects)

serve_host-Guarded :
    (pl : Platform) (net : Net) (d : Dialer) (r : Relay) (conn : Conn) (raw : Bytes) (port : ℕ)
    (rest : Bytes)
    → (conn.is_tls && conn.handshake_ok && conn.has_client_cert) ≡ true
    → read_connect conn.read_error conn.stream ≡ ok (raw, port, rest)
    → Guarded pl r conn (serve_host pl net d r conn raw port)
unfolding serve_host
serve_host-Guarded pl net d r conn raw port rest secure frame = by_host (normalize_host pl raw) refl
  where
    lab : Bool
    lab = r.cfg.allow_private_destinations

    by_addrs :
        (host : Bytes) (addrs : Result GuardError (List Addr))
        → resolve net host lab ≡ addrs
        → normalize_host pl raw ≡ ok host
        → allowed pl r host port ≡ true
        → Guarded pl r conn (elim addrs as (λ _. Session) [
          | err e ↦ ends resolve_blocked (some status_dns)
          | ok found ↦ answer conn host port (dial_first net d lab port found)
        ])
    by_addrs host (err e) q n passes = λ some_connect. cc
    by_addrs host (ok found) q n passes =
        let tried = dial_first net d lab port found in
        λ some_connect. (
          secure,
          (host, port, (raw, rest, frame, n, passes)),
          λ off. rw (answer-connects conn host port tried) (
              dial_first-All net d lab port IsPublic found
                ((resolve-IsPublic net host found (rw off at q)).1)),
        )

    by_rule :
        (host : Bytes) (passes : Bool)
        → allowed pl r host port ≡ passes
        → normalize_host pl raw ≡ ok host
        → Guarded pl r conn (
            if not passes
            then ends denied (some status_denied)
            else elim (resolve net host lab) as (λ _. Session) [
              | err e ↦ ends resolve_blocked (some status_dns)
              | ok found ↦ answer conn host port (dial_first net d lab port found)
            ])
    by_rule host false q n = λ some_connect. cc
    by_rule host true q n = by_addrs host (resolve net host lab) refl n q

    by_host :
        (h : Result HostError Bytes)
        → normalize_host pl raw ≡ h
        → Guarded pl r conn (elim h as (λ _. Session) [
          | err e ↦ ends bad_host (some status_denied)
          | ok host ↦
              if not (allowed pl r host port)
              then ends denied (some status_denied)
              else elim (resolve net host lab) as (λ _. Session) [
                | err e ↦ ends resolve_blocked (some status_dns)
                | ok found ↦ answer conn host port (dial_first net d lab port found)
              ]
        ])
    by_host (err e) q = λ some_connect. cc
    by_host (ok host) q = by_rule host (allowed pl r host port) refl q

-- A session connects to an address only if the peer completed TLS with a client certificate, the
-- stream starts with a CONNECT frame, and the frame's host normalizes to one that the relay allows
-- with the frame's port; and unless the config allows private destinations, every address connected
-- to is public.
pub handle-guarded :
    (pl : Platform) (net : Net) (d : Dialer) (r : Relay) (active : ℕ) (conn : Conn)
    → let s = handle pl net d r active conn in
      is_empty s.connects ≡ false
      → ((conn.is_tls && conn.handshake_ok && conn.has_client_cert) ≡ true)
        × ((host : Bytes) × (port : ℕ) × Permitted pl r conn host port)
        × (r.cfg.allow_private_destinations ≡ false → All IsPublic s.connects)
unfolding handle
handle-guarded pl net d r active conn =
    guards (ltb r.max_sess (active + 1)) conn.is_tls conn.handshake_ok conn.has_client_cert refl
  where
    by_frame :
        (f : Result TunnelError (Bytes × ℕ × Bytes))
        → (conn.is_tls && conn.handshake_ok && conn.has_client_cert) ≡ true
        → read_connect conn.read_error conn.stream ≡ f
        → Guarded pl r conn (elim f as (λ _. Session) [
          | err e ↦ ends bad_frame none
          | ok g ↦ serve_host pl net d r conn (g.0) (g.1)
        ])
    by_frame (err e) secure q = λ some_connect. cc
    by_frame (ok (raw, port, rest)) secure q =
        serve_host-Guarded pl net d r conn raw port rest secure q

    guards :
        (full t h c : Bool)
        → (conn.is_tls && conn.handshake_ok && conn.has_client_cert) ≡ (t && h && c)
        → Guarded pl r conn (
            if full
            then ends max_sessions none
            else if not t
            then ends not_tls none
            else if not h
            then ends handshake_failed none
            else if not c
            then ends no_client_cert none
            else elim (read_connect conn.read_error conn.stream) as (λ _. Session) [
              | err e ↦ ends bad_frame none
              | ok g ↦ serve_host pl net d r conn (g.0) (g.1)
            ])
    guards true t h c q = λ some_connect. cc
    guards false false h c q = λ some_connect. cc
    guards false true false c q = λ some_connect. cc
    guards false true true false q = λ some_connect. cc
    guards false true true true q = by_frame (read_connect conn.read_error conn.stream) q refl
