-- ===== src/Selector.antt =====
-- node/proxy/selector.go: the egress targets of one service, their health and their order.
-- A latency is a float64: its type and operations are a parameter. What is random is an argument.
-- The time of the last check and the metrics are never read back, and are left out.
pub mod Health
pub mod Order
pub mod Dial
pub mod Source
use smart_dns_proxy.Prelude.{
  ℕ, zero, suc, ◌+◌, ◌-◌, ◌*◌, ◌/◌, ◌%◌, ◌^◌, ◌≤◌, ◌<◌, ◌≡◌, refl, sym, ap, ◌∙◌, ◌≢◌, ◌↔◌, ◌⊎◌, inl,
  inr, Bool, true, false, not, ◌&&◌, ◌||◌, Option, none, some, List, [], ◌∷◌, ◌++◌, map, arith, ltb,
  leb, ◌==◌, if◌then◌else◌, ltb→lt, ltb→le, lt→ltb, leb→le, leb→lt, ==_iff, tests, Bool-cases,
  Option-cases, eq_of_iff, is_some, Eq, nat_eq, beq_refl, length, is_empty, get_or, take, drop,
  keep, any, all, length-append, take-append-drop, take-append, drop-append, length-take,
  length-drop, length-keep-le, All, All-append, All-keep, elem, nodup, elem-append, elem-keep,
  All-elem, elem-All, switch, switch-All, Bytes, codes, bytes_beq, bytes_beq_refl, bytes_beq_iff,
  bytes_eq, bytes_lt, bytes_lt_irrefl, bytes_lt_asymm, bytes_lt_trans, bytes_lt_total, Result, ok,
  err, ◌>>=◌, or_else, >>=-eq-ok,
}
use smart_dns_proxy.Prelude.Int.{ℤ, ltz, positive_or}
use smart_dns_proxy.Prelude.Sort
use smart_dns_proxy.Strings.{contains}
use smart_dns_proxy.Model.{EgressTarget, EgressPolicy}
use smart_dns_proxy.Tunnel.{TunnelError, transport, error_text, Peer, write_connect}

pub record Float (F : Type 0) : Type 0 where
  pub of_nat : ℕ → F
  pub add : F → F → F
  pub sub : F → F → F
  pub mul : F → F → F
  pub div : F → F → F
  pub lt : F → F → Bool
  pub eq : F → F → Bool

pub record Target (F : Type 0) : Type 0 where
  pub egress : EgressTarget
  pub healthy : Bool
  pub fails : ℕ
  pub successes : ℕ
  pub latency : F

pub record Pool (F : Type 0) : Type 0 where
  pub policy : EgressPolicy
  pub targets : List (Target F)
  pub sticky : Bytes

module _ {F : Type 0} (fl : Float F) where
  -- the moving average: 0.7 of the old and 0.3 of the new, in milliseconds
  unfoldable pub next_latency : F → ℕ → F
  next_latency old micros =
      let ms = fl.div (fl.of_nat micros) (fl.of_nat 1000) in
      if fl.eq old (fl.of_nat 0)
      then ms
      else fl.add (fl.mul (fl.div (fl.of_nat 7) (fl.of_nat 10)) old)
          (fl.mul (fl.div (fl.of_nat 3) (fl.of_nat 10)) ms)

  -- `observe` of a try that took so many microseconds
  unfoldable pub observe : Target F → Bool → ℕ → ℕ → ℕ → Target F
  observe t true micros fail rise =
      let n = t.successes + 1 in
      record t {
        fails = 0;
        successes = n;
        latency = next_latency t.latency micros;
        healthy = t.healthy || leb rise n;
      }
  observe t false micros fail rise =
      let n = t.fails + 1 in
      record t { successes = 0; fails = n; healthy = t.healthy && not (leb fail n) }

  -- The inner loop of `newPool`: the last earlier target of the same node passes its verdict on.
  unfoldable pub inherit : List (Target F) → Target F → Target F
  inherit [] t = t
  inherit (old ∷ prev) t = inherit prev (
      if bytes_beq old.egress.node_id t.egress.node_id
      then record t { healthy = old.healthy; latency = old.latency }
      else t)

  unfoldable pub new_target : List (Target F) → EgressTarget → Target F
  unfolding inherit
  new_target prev e =
      inherit prev
        (record { egress = e; healthy = true; fails = 0; successes = 0; latency = fl.of_nat 0 })

  abbrev pub by_priority : Target F → Target F → Bool
  by_priority a b = ltz a.egress.priority b.egress.priority

  unfoldable pub new_pool : EgressPolicy → List (Target F) → Pool F
  unfolding new_target
  new_pool p prev = record {
    policy = p;
    targets = Sort.sort by_priority (map (new_target prev) p.targets);
    sticky = [];
  }

  abbrev pub thresholds : Pool F → ℕ × ℕ
  thresholds p =
      let fail = p.policy.fail_threshold in
      let rise = p.policy.rise_threshold in (positive_or 3 fail, positive_or 2 rise)

  -- the `less` of `byLatency`: a latency of 0 is unknown, and goes last
  unfoldable pub faster : Target F → Target F → Bool
  faster a b =
      if fl.eq a.latency (fl.of_nat 0)
      then false
      else if fl.eq b.latency (fl.of_nat 0)
      then true
      else fl.lt a.latency b.latency

  -- the target that is preferred now: the last of that node
  unfoldable pub current : Bytes → List (Target F) → Option (Target F)
  current sticky [] = none
  current sticky (t ∷ ts) = elim (current sticky ts) [
    | some c ↦ some c
    | none ↦ if bytes_beq t.egress.node_id sticky then some t else none
  ]

  -- whether the best is faster than the current by both margins
  unfoldable pub clearly_faster : EgressPolicy → F → F → Bool
  clearly_faster policy cur best =
      let pct = positive_or 20 policy.hysteresis_pct in
      let ms = positive_or 20 policy.hysteresis_ms in
      let share = fl.sub (fl.of_nat 1) (fl.div (fl.of_nat pct) (fl.of_nat 100)) in
      fl.lt (fl.of_nat 0) cur
      && fl.lt (fl.of_nat 0) best
      && fl.lt best (fl.mul cur share)
      && fl.lt (fl.of_nat ms) (fl.sub cur best)

  -- The decision on the sorted list, and the new sticky node.
  unfoldable pub prefer :
      EgressPolicy → Bytes → List (Target F) → List (Target F) → List (Target F) × Bytes
  unfolding current clearly_faster
  prefer policy sticky ts [] = ([], sticky)
  prefer policy sticky ts (best ∷ sorted) =
      let switched : List (Target F) × Bytes = (best ∷ sorted, best.egress.node_id) in
      if is_empty sticky then switched else elim (current sticky ts) [
        | none ↦ switched
        | some cur ↦ if clearly_faster policy cur.latency best.latency then switched else (
          cur ∷ keep (λ t. not (bytes_beq t.egress.node_id cur.egress.node_id)) (best ∷ sorted),
          sticky,
        )
      ]

  unfoldable pub by_latency : EgressPolicy → Bytes → List (Target F) → List (Target F) × Bytes
  unfolding prefer faster
  by_latency policy sticky ts =
      if ltb (length ts) 2 then (ts, sticky) else prefer policy sticky ts (Sort.sort faster ts)

  abbrev pub weight : Target F → ℕ
  weight t = if t.egress.weight == 0 then 1 else t.egress.weight

  unfoldable pub total_weight : List (Target F) → ℕ
  total_weight [] = 0
  total_weight (t ∷ ts) = weight t + total_weight ts

  -- The index that the draw falls on; 0 where the loop ends without one.
  unfoldable pub drawn : List (Target F) → ℕ → ℕ → ℕ
  drawn [] n i = 0
  drawn (t ∷ ts) n i =
      let later = drawn ts (n - weight t) (i + 1) in if ltb n (weight t) then i else later

  -- `rest[i]` and `rest` without it
  unfoldable pub pull : ℕ → Target F → List (Target F) → Target F × List (Target F)
  pull zero t ts = (t, ts)
  pull (suc i) t [] = (t, [])
  pull (suc i) t (u ∷ ts) = let (picked, left) = pull i u ts in (picked, t ∷ left)

  -- `draw total` is `rand.Intn(total)`, a function of the round.
  unfoldable pub weighted_shuffle : ℕ → (ℕ → ℕ → ℕ) → List (Target F) → List (Target F)
  unfolding total_weight drawn pull
  weighted_shuffle zero draw rest = []
  weighted_shuffle (suc rounds) draw [] = []
  weighted_shuffle (suc rounds) draw (t ∷ ts) =
      let n = draw rounds (total_weight (t ∷ ts)) in
      let (picked, left) = pull (drawn (t ∷ ts) n 0) t ts in
      picked ∷ weighted_shuffle rounds draw left

  -- the healthy targets in the order of the policy, and the sticky node
  unfoldable pub arrange : Pool F → (ℕ → ℕ → ℕ) → List (Target F) → List (Target F) × Bytes
  unfolding weighted_shuffle by_latency
  arrange p draw healthy =
      switch
        ((
          bytes_beq p.policy.mode (codes "weighted"),
          (weighted_shuffle (length healthy) draw healthy, p.sticky),
        )
          ∷ (bytes_beq p.policy.mode (codes "lowest_latency"), by_latency p.policy p.sticky healthy)
          ∷ (bytes_beq p.policy.mode (codes "manual_fixed"), (take 1 healthy, p.sticky))
          ∷ [])
        (healthy, p.sticky)

  -- The candidates, healthy first, and the pool with its sticky node.
  unfoldable pub order : Pool F → (ℕ → ℕ → ℕ) → List (Target F) × Pool F
  unfolding arrange
  order p draw =
      let (first, sticky) = arrange p draw (keep (λ t. t.healthy) p.targets) in
      (first ++ keep (λ t. not t.healthy) p.targets, record p { sticky = sticky })

-- `isPolicyRefusal`, by the text of the error
unfoldable pub is_policy_refusal : TunnelError → Bool
unfolding error_text contains
is_policy_refusal e =
    contains (error_text e) (codes "destination not allowed")
    || contains (error_text e) (codes "resolution failed")

-- What happens when a target is tried: the dial, the TLS handshake, the frame, and the time it took.
pub record Attempt : Type 0 where
  pub dial_error : Option Bytes
  pub handshake_error : Option Bytes
  pub peer : Peer
  pub micros : ℕ

unfoldable pub try_connect : Attempt → Bytes → ℕ → Result TunnelError Unit
try_connect a host port = elim a.dial_error [
  | some text ↦ err (transport text)
  | none ↦ elim a.handshake_error [
    | some text ↦ err (transport text)
    | none ↦ (write_connect a.peer host port).1
  ]
]

pub data DialResult (F : Type 0) : Type 0 where
  connected : Target F → DialResult F
  denied : Target F → TunnelError → DialResult F
  -- every target was tried; the last error, if there was a target
  exhausted : Option TunnelError → DialResult F

module _ {F : Type 0} (fl : Float F) (fail rise : ℕ) (host : Bytes) (port : ℕ) where
  -- The loop of `dial`: the targets as they are left, in the order of the tries, and the result.
  unfoldable pub dial_loop :
      (Target F → Attempt) → List (Target F) → Option TunnelError → List (Target F) × DialResult F
  unfolding try_connect observe
  dial_loop attempt [] last = ([], exhausted last)
  dial_loop attempt (t ∷ ts) last = elim (try_connect (attempt t) host port) [
    | ok _ ↦ let t' = observe fl t true (attempt t).micros fail rise in (t' ∷ ts, connected t')
    | err e ↦
        let t' = observe fl t false (attempt t).micros fail rise in
        let (rest, r) = dial_loop attempt ts (some e) in
        if is_policy_refusal e then (t ∷ ts, denied t e) else (t' ∷ rest, r)
  ]
