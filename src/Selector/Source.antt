-- ===== src/Selector/Source.antt =====
-- Where the candidates of node/proxy/selector.go come from: what holds of the policy's targets.
use smart_dns_proxy.Prelude.{
  ℕ, zero, suc, ◌≡◌, refl, sym, ◌∙◌, inl, inr, Bool, true, false, not, Option, none, some, List, [],
  ◌∷◌, map, arith, ltb, if◌then◌else◌, Bool-cases, Option-cases, nat_eq, length, is_empty, take,
  keep, All, All-append, All-keep, switch-All, Bytes, codes, bytes_beq, bytes_eq, Result, ok, err,
}
use smart_dns_proxy.Prelude.Sort.{All-sort}
use mathlib.Core.Path.{subst}
use smart_dns_proxy.Model.{EgressTarget, EgressPolicy}
use smart_dns_proxy.Tunnel.{TunnelError}
use smart_dns_proxy.Selector.{
  Float, Target, Pool, observe, inherit, new_target, new_pool, faster, by_priority, current,
  clearly_faster, prefer, by_latency, drawn, pull, total_weight, weighted_shuffle, arrange, order,
  Attempt, try_connect, is_policy_refusal, DialResult, connected, denied, dial_loop,
}

module _ {F : Type 0} (fl : Float F) (P : EgressTarget → Type 0) where
  -- Of all targets.
  abbrev pub Of : List (Target F) → Type 0
  Of ts = All (λ (t : Target F). P t.egress) ts

  inherit-egress : (prev : List (Target F)) (t : Target F) → (inherit fl prev t).egress ≡ t.egress
  unfolding inherit
  inherit-egress [] t = refl
  inherit-egress (old ∷ prev) t =
      let u : Target F =
        if bytes_beq old.egress.node_id t.egress.node_id
        then record t { healthy = old.healthy; latency = old.latency }
        else t in
      let same : u.egress ≡ t.egress = ground arith in inherit-egress prev u ∙ same

  fresh_targets :
      (prev : List (Target F)) (es : List EgressTarget)
      → All P es
      → Of (map (new_target fl prev) es)
  unfolding new_target
  fresh_targets prev [] h = tt
  fresh_targets prev (e ∷ es) (p, h) = (
    subst P
        (sym (
          inherit-egress prev (record {
            egress = e;
            healthy = true;
            fails = 0;
            successes = 0;
            latency = fl.of_nat 0;
          })))
        p,
    fresh_targets prev es h,
  )

  pub new_pool-Of :
      (p : EgressPolicy) (prev : List (Target F))
      → All P p.targets
      → Of (new_pool fl p prev).targets
  unfolding new_pool
  new_pool-Of p prev h =
      All-sort (by_priority fl) (λ (t : Target F). P t.egress) _ (fresh_targets prev p.targets h)

  pull-Of :
      (i : ℕ) (t : Target F) (ts : List (Target F))
      → P t.egress
      → Of ts
      → P ((pull fl i t ts).0).egress × Of ((pull fl i t ts).1)
  unfolding pull
  pull-Of zero t ts p h = (p, h)
  pull-Of (suc i) t [] p h = (p, tt)
  pull-Of (suc i) t (u ∷ ts) p h = let (q, rest) = pull-Of i u ts h.0 h.1 in (q, (p, rest))

  weighted_shuffle-Of :
      (rounds : ℕ) (draw : ℕ → ℕ → ℕ) (ts : List (Target F))
      → Of ts
      → Of (weighted_shuffle fl rounds draw ts)
  unfolding weighted_shuffle
  weighted_shuffle-Of zero draw ts h = tt
  weighted_shuffle-Of (suc rounds) draw [] h = tt
  weighted_shuffle-Of (suc rounds) draw (t ∷ ts) h =
      let n = draw rounds (total_weight fl (t ∷ ts)) in
      let (q, rest) = pull-Of (drawn fl (t ∷ ts) n 0) t ts h.0 h.1 in
      (q, weighted_shuffle-Of rounds draw _ rest)

  current-Of :
      (sticky : Bytes) (ts : List (Target F)) (c : Target F)
      → Of ts
      → current fl sticky ts ≡ some c
      → P c.egress
  unfolding current
  current-Of sticky [] c h e = cc
  current-Of sticky (t ∷ ts) c h e = elim (Option-cases (current fl sticky ts)) [
    | inl last ↦ let same : t ≡ c = ground arith in subst (λ (u : Target F). P u.egress) same (h.0)
    | inr (d, found) ↦ current-Of sticky ts c h.1 (ground arith)
  ]

  prefer-Of :
      (policy : EgressPolicy) (sticky : Bytes) (ts sorted : List (Target F))
      → Of ts
      → Of sorted
      → Of ((prefer fl policy sticky ts sorted).0)
  unfolding prefer
  prefer-Of policy sticky ts [] h k = tt
  prefer-Of policy sticky ts (best ∷ sorted) h k =
      by_sticky (is_empty sticky) (current fl sticky ts) refl
    where
      by_sticky :
          (e : Bool) (o : Option (Target F))
          → current fl sticky ts ≡ o
          → let r : List (Target F) × Bytes =
              if e
              then ((best ∷ sorted), best.egress.node_id)
              else elim o as (λ _. List (Target F) × Bytes) [
                | none ↦ ((best ∷ sorted), best.egress.node_id)
                | some cur ↦
                    if clearly_faster fl policy cur.latency best.latency
                    then ((best ∷ sorted), best.egress.node_id)
                    else (
                      cur
                          ∷ keep
                              (λ t. not (bytes_beq t.egress.node_id cur.egress.node_id))
                              (best ∷ sorted),
                      sticky,
                    )
              ] in
            Of (r.0)
      by_sticky true o q = k
      by_sticky false none q = k
      by_sticky false (some cur) q =
          elim (clearly_faster fl policy cur.latency best.latency)
            as (λ b.
              let r : List (Target F) × Bytes =
                if b then ((best ∷ sorted), best.egress.node_id) else (
                  cur
                      ∷ keep (λ t. not (bytes_beq t.egress.node_id cur.egress.node_id))
                          (best ∷ sorted),
                  sticky,
                ) in
              Of (r.0)) [
                | true ↦ k
                | false ↦ (
                  current-Of sticky ts cur h q,
                  All-keep (λ (t : Target F). P t.egress)
                      (λ t. not (bytes_beq t.egress.node_id cur.egress.node_id)) (best ∷ sorted) k,
                )
              ]

  by_latency-Of :
      (policy : EgressPolicy) (sticky : Bytes) (ts : List (Target F))
      → Of ts
      → Of ((by_latency fl policy sticky ts).0)
  unfolding by_latency
  by_latency-Of policy sticky ts h = elim (Bool-cases (ltb (length ts) 2)) [
    | inl few ↦ rw few h
    | inr more ↦
        rw more (
          prefer-Of policy sticky ts _ h (All-sort (faster fl) (λ (t : Target F). P t.egress) ts h))
  ]

  take-Of : (n : ℕ) (ts : List (Target F)) → Of ts → Of (take n ts)
  take-Of zero ts h = tt
  take-Of (suc n) [] h = tt
  take-Of (suc n) (t ∷ ts) h = (h.0, take-Of n ts h.1)

  -- Every candidate is a target of the pool.
  pub order-Of : (p : Pool F) (draw : ℕ → ℕ → ℕ) → Of p.targets → Of ((order fl p draw).0)
  unfolding order arrange
  order-Of p draw h =
      let Q = λ (t : Target F). P t.egress in
      let good = keep (λ (t : Target F). t.healthy) p.targets in
      let h' : Of good = All-keep Q (λ t. t.healthy) p.targets h in
      let cases : List (Bool × (List (Target F) × Bytes)) =
        (
          bytes_beq p.policy.mode (codes "weighted"),
          (weighted_shuffle fl (length good) draw good, p.sticky),
        )
        ∷ (bytes_beq p.policy.mode (codes "lowest_latency"), by_latency fl p.policy p.sticky good)
        ∷ (bytes_beq p.policy.mode (codes "manual_fixed"), (take 1 good, p.sticky))
        ∷ [] in
      let each : All (λ (c : Bool × (List (Target F) × Bytes)). Of ((c.1).0)) cases = (
        weighted_shuffle-Of (length good) draw good h',
        (by_latency-Of p.policy p.sticky good h', (take-Of 1 good h', tt)),
      ) in
      All-append Q _ _
        (switch-All (λ (r : List (Target F) × Bytes). Of (r.0)) cases (good, p.sticky) each h')
        (All-keep Q (λ t. not t.healthy) p.targets h)

  -- The target that a dial connects to is one of the candidates.
  pub dial_loop-Of :
      (fail rise : ℕ) (host : Bytes) (port : ℕ) (attempt : Target F → Attempt)
      (ts : List (Target F)) (last : Option TunnelError) (u : Target F)
      → Of ts
      → (dial_loop fl fail rise host port attempt ts last).1 ≡ connected u
      → P u.egress
  unfolding dial_loop observe
  dial_loop-Of fail rise host port attempt [] last u h e = cc
  dial_loop-Of fail rise host port attempt (t ∷ ts) last u h e =
      by_try (try_connect (attempt t) host port) e
        (λ x q. dial_loop-Of fail rise host port attempt ts (some x) u h.1 q)
    where
      by_try :
          (r : Result TunnelError Unit)
          → (elim r as (λ _. List (Target F) × DialResult F) [
            | ok _ ↦
                let t' = observe fl t true (attempt t).micros fail rise in (t' ∷ ts, connected t')
            | err e ↦
                let t' = observe fl t false (attempt t).micros fail rise in
                let (rest, r) = dial_loop fl fail rise host port attempt ts (some e) in
                if is_policy_refusal e then (t ∷ ts, denied t e) else (t' ∷ rest, r)
          ]).1
            ≡ connected u
          → ((x : TunnelError)
              → (dial_loop fl fail rise host port attempt ts (some x)).1 ≡ connected u
              → P u.egress)
          → P u.egress
      by_try (ok x) q ih = subst P (ground arith) (h.0)
      by_try (err x) q ih = elim (Bool-cases (is_policy_refusal x)) [
        | inl policy ↦ cc (q, policy)
        | inr other ↦ ih x (rw other at q)
      ]
