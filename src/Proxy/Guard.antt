-- ===== src/Proxy/Guard.antt =====
-- `handle` of node/proxy/proxy.go: when a session is carried to a target.
use smart_dns_proxy.Prelude.{
  ℕ, ◌+◌, ◌<◌, ◌≡◌, refl, sym, ap, ◌∙◌, inl, inr, Bool, true, false, Option, none, some, arith, ltb,
  if◌then◌else◌, Bool-cases, nat_eq, Bytes, bytes_eq, Result, ok, err,
}
use smart_dns_proxy.Platform.{Platform}
use smart_dns_proxy.Domainset.Host.{HostError, normalize_host}
use smart_dns_proxy.Sniff.{SniffError, peek_sni}
use smart_dns_proxy.Selector.{Float, Target, DialResult, connected, denied, exhausted}
use smart_dns_proxy.Proxy.{SvcRoute, Proxy, dial, lookup, port_allowed, max_pre_read}
use smart_dns_proxy.Proxy.Session.{
  Client, port_of, Network, Outcome, max_sessions, invalid_sni, sni_not_managed, port_not_allowed,
  bad_hello, write_failed, proxied, doh_forward, relay_to, serve_route, serve_host, handle,
}

module _ {F : Type 0} (fl : Float F) (pl : Platform) (p : Proxy F) (net : Network F)
    (client : Client) where
  -- What a route and a dial say of a session that is carried.
  abbrev pub IsRouted : Target F → Bytes → ℕ → Bytes → SvcRoute F → Type 0
  IsRouted t host port raw r =
      (lookup pl p host ≡ some r)
      × (port_allowed r.svc.allowed_ports port ≡ true)
      × ((dial fl host port net.attempt net.draw r.pool).0 ≡ connected t)

  relay_to-proxied :
      (h : Bytes) (n : ℕ) (w : Bytes) (d : DialResult F) (t : Target F) (host : Bytes) (port : ℕ)
      (raw : Bytes)
      → relay_to fl net h n w d ≡ proxied t host port raw
      → (d ≡ connected t) × (h ≡ host) × (n ≡ port) × (w ≡ raw)
  unfolding relay_to
  relay_to-proxied h n w (connected u) t host port raw q = elim (Bool-cases net.takes_hello) [
    | inl takes ↦
        let e : proxied u h n w ≡ proxied t host port raw = rw takes at q in
        (ap connected (cc), cc, cc, cc)
    | inr fails ↦
        absurd
          (let e : ◌≡◌ {A = Outcome F} write_failed (proxied t host port raw) = rw fails at q in cc)
  ]
  relay_to-proxied h n w (denied u e) t host port raw q = cc
  relay_to-proxied h n w (exhausted (some e)) t host port raw q = cc
  relay_to-proxied h n w (exhausted none) t host port raw q = cc

  serve_route-proxied :
      (h w : Bytes) (r : SvcRoute F) (t : Target F) (host : Bytes) (port : ℕ) (raw : Bytes)
      → lookup pl p h ≡ some r
      → (serve_route fl p net client h w r).0 ≡ proxied t host port raw
      → (h ≡ host) × (port_of client ≡ port) × (w ≡ raw) × IsRouted t host port raw r
  unfolding serve_route
  serve_route-proxied h w r t host port raw found q =
      elim (Bool-cases (port_allowed r.svc.allowed_ports (port_of client))) [
        | inl open_port ↦
            let e : relay_to fl net h (port_of client) w
                  (dial fl h (port_of client) net.attempt net.draw r.pool).0
                ≡ proxied t host port raw =
              rw open_port at q in
            let (d, hh, pp, ww) = relay_to-proxied h (port_of client) w _ t host port raw e in
            (hh, pp, ww, rw (sym hh, sym pp) (found, open_port, d))
        | inr shut ↦ absurd (
            let e : ◌≡◌ {A = Outcome F} port_not_allowed (proxied t host port raw) = rw shut at q in
            cc)
      ]

  doh_forward-other :
      (h w : Bytes) (t : Target F) (host : Bytes) (port : ℕ) (raw : Bytes)
      → doh_forward fl p net h w ≡ some (proxied t host port raw)
      → ⊥
  unfolding doh_forward
  doh_forward-other h w t host port raw q = ground arith

  serve_host-proxied :
      (h w : Bytes) (t : Target F) (host : Bytes) (port : ℕ) (raw : Bytes)
      → (serve_host fl pl p net client h w).0 ≡ proxied t host port raw
      → (h ≡ host)
        × (port_of client ≡ port)
        × (w ≡ raw)
        × ((r : SvcRoute F) × IsRouted t host port raw r)
  unfolding serve_host
  serve_host-proxied h w t host port raw q = by_route (lookup pl p h) refl q
    where
      by_route :
          (o : Option (SvcRoute F))
          → lookup pl p h ≡ o
          → (elim o as (λ _. Outcome F × Proxy F) [
            | some r ↦ serve_route fl p net client h w r
            | none ↦ elim (doh_forward fl p net h w) as (λ _. Outcome F × Proxy F) [
              | some o ↦ (o, p)
              | none ↦ (sni_not_managed, p)
            ]
          ]).0
            ≡ proxied t host port raw
          → (h ≡ host)
            × (port_of client ≡ port)
            × (w ≡ raw)
            × ((r : SvcRoute F) × IsRouted t host port raw r)
      by_route (some r) found q =
          let (hh, pp, ww, routed) = serve_route-proxied h w r t host port raw found q in
          (hh, pp, ww, (r, routed))
      by_route none found q = by_doh (doh_forward fl p net h w) refl q
        where
          by_doh :
              (o : Option (Outcome F))
              → doh_forward fl p net h w ≡ o
              → (elim o as (λ _. Outcome F × Proxy F) [
                | some o ↦ (o, p)
                | none ↦ (sni_not_managed, p)
              ]).0
                ≡ proxied t host port raw
              → (h ≡ host)
                × (port_of client ≡ port)
                × (w ≡ raw)
                × ((r : SvcRoute F) × IsRouted t host port raw r)
          by_doh (some o) e q = absurd (doh_forward-other h w t host port raw (e ∙ ap some q))
          by_doh none e q = cc

  -- A session is carried to a target only if it was admitted, the name in the ClientHello normalizes
  -- to a host that a route owns, the service allows the local port, and the dial of the route's pool
  -- for that host and port connected to the target; and the bytes replayed are all that was read.
  pub handle-proxied :
      (active : ℕ) (t : Target F) (host : Bytes) (port : ℕ) (raw : Bytes)
      → (handle fl pl p net active client).0 ≡ proxied t host port raw
      → (active < p.max_sess)
        × ((sni : Bytes) × ((peek_sni pl client.stream (max_pre_read p)).0 ≡ ok sni)
            × (normalize_host pl sni ≡ ok host))
        × ((peek_sni pl client.stream (max_pre_read p)).1 ≡ raw)
        × (port_of client ≡ port)
        × ((r : SvcRoute F) × IsRouted t host port raw r)
  unfolding handle
  handle-proxied active t host port raw q = guard (ltb p.max_sess (active + 1)) refl q
    where
      peeked : Result SniffError Bytes × Bytes
      peeked = peek_sni pl client.stream (max_pre_read p)

      Carried : Type 0
      Carried =
          (active < p.max_sess)
          × ((sni : Bytes) × (peeked.0 ≡ ok sni) × (normalize_host pl sni ≡ ok host))
          × (peeked.1 ≡ raw)
          × (port_of client ≡ port)
          × ((r : SvcRoute F) × IsRouted t host port raw r)

      by_host :
          (sni : Bytes) (o : Result HostError Bytes)
          → active < p.max_sess
          → peeked.0 ≡ ok sni
          → normalize_host pl sni ≡ o
          → (elim o as (λ _. Outcome F × Proxy F) [
            | err e ↦ (invalid_sni, p)
            | ok h ↦ serve_host fl pl p net client h (peeked.1)
          ]).0
            ≡ proxied t host port raw
          → Carried
      by_host sni (err e) room named n q = cc
      by_host sni (ok h) room named n q =
          let (hh, pp, ww, routed) = serve_host-proxied h (peeked.1) t host port raw q in
          (room, (sni, named, n ∙ ap ok hh), ww, pp, routed)

      by_sni :
          (o : Result SniffError Bytes)
          → active < p.max_sess
          → peeked.0 ≡ o
          → (elim o as (λ _. Outcome F × Proxy F) [
            | err e ↦ (bad_hello e, p)
            | ok sni ↦ elim (normalize_host pl sni) as (λ _. Outcome F × Proxy F) [
              | err e ↦ (invalid_sni, p)
              | ok h ↦ serve_host fl pl p net client h (peeked.1)
            ]
          ]).0
            ≡ proxied t host port raw
          → Carried
      by_sni (err e) room named q = cc
      by_sni (ok sni) room named q = by_host sni (normalize_host pl sni) room named refl q

      guard :
          (full : Bool)
          → ltb p.max_sess (active + 1) ≡ full
          → (if full then (max_sessions, p) else elim (peeked.0) as (λ _. Outcome F × Proxy F) [
            | err e ↦ (bad_hello e, p)
            | ok sni ↦ elim (normalize_host pl sni) as (λ _. Outcome F × Proxy F) [
              | err e ↦ (invalid_sni, p)
              | ok h ↦ serve_host fl pl p net client h (peeked.1)
            ]
          ]).0
            ≡ proxied t host port raw
          → Carried
      guard true e q = cc
      guard false e q = by_sni (peeked.0) (ground arith) refl q
