-- ===== src/Selector/Dial.antt =====
-- `dial` of node/proxy/selector.go: what is tried, and what becomes of the targets.
use smart_dns_proxy.Prelude.{
  ℕ, ◌≡◌, refl, ap, inl, inr, true, false, ◌||◌, Option, some, List, [], ◌∷◌, ◌++◌, map, arith,
  ◌==◌, if◌then◌else◌, Bool-cases, nat_eq, All, Bytes, bytes_eq, Result, ok, err,
}
use smart_dns_proxy.Tunnel.{TunnelError, refused}
use smart_dns_proxy.Selector.{
  Float, Target, observe, is_policy_refusal, Attempt, try_connect, DialResult, connected, denied,
  exhausted, dial_loop,
}

-- Of the status bytes that an egress sends, "denied" and "resolution" are refusals by policy, and no
-- others: the texts of the two sides of the tunnel fit.
pub is_policy_refusal-refused : (s : ℕ) → is_policy_refusal (refused s) ≡ (s == 1 || s == 2)
unfolding is_policy_refusal
is_policy_refusal-refused s = elim (Bool-cases (s == 0)) [
  | inl e ↦ let q : s ≡ 0 = ground arith in rw q
  | inr n₀ ↦ elim (Bool-cases (s == 1)) [
    | inl e ↦ let q : s ≡ 1 = ground arith in rw q
    | inr n₁ ↦ elim (Bool-cases (s == 2)) [
      | inl e ↦ let q : s ≡ 2 = ground arith in rw q
      | inr n₂ ↦ elim (Bool-cases (s == 3)) [
        | inl e ↦ let q : s ≡ 3 = ground arith in rw q
        | inr n₃ ↦ rw n₀ (rw n₁ (rw n₂ (rw n₃)))
      ]
    ]
  ]
]

module _ {F : Type 0} (fl : Float F) (fail rise : ℕ) (host : Bytes) (port : ℕ)
    (attempt : Target F → Attempt) where
  abbrev pub blamed : Target F → Target F
  blamed t = observe fl t false (attempt t).micros fail rise

  -- The try failed, and not by policy.
  abbrev pub Failed : Target F → Type 0
  Failed t =
      (e : TunnelError) × (try_connect (attempt t) host port ≡ err e)
      × (is_policy_refusal e ≡ false)

  -- What a result says of the targets, and what became of them.
  abbrev pub Explains : List (Target F) → List (Target F) → DialResult F → Type 0
  Explains ts after (connected u) =
      (before : List (Target F)) × (t : Target F) × (rest : List (Target F)) × (ts
        ≡ before ++ t ∷ rest)
      × All Failed before
      × (try_connect (attempt t) host port ≡ ok tt)
      × (u ≡ observe fl t true (attempt t).micros fail rise)
      × (after ≡ map blamed before ++ u ∷ rest)
  Explains ts after (denied t e) =
      (before : List (Target F)) × (rest : List (Target F)) × (ts ≡ before ++ t ∷ rest)
      × All Failed before
      × (try_connect (attempt t) host port ≡ err e)
      × (is_policy_refusal e ≡ true)
      × (after ≡ map blamed before ++ t ∷ rest)
  Explains ts after (exhausted last) = All Failed ts × (after ≡ map blamed ts)

  later :
      (t : Target F) (ts after : List (Target F)) (r : DialResult F)
      → Failed t
      → Explains ts after r
      → Explains (t ∷ ts) (blamed t ∷ after) r
  later t ts after (connected u) f (before, v, rest, split, failed, won, seen, left) = (
    t ∷ before,
    v,
    rest,
    ap (λ l. t ∷ l) split,
    (f, failed),
    won,
    seen,
    ap (λ l. blamed t ∷ l) left,
  )
  later t ts after (denied v e) f (before, rest, split, failed, lost, policy, left) = (
    t ∷ before,
    rest,
    ap (λ l. t ∷ l) split,
    (f, failed),
    lost,
    policy,
    ap (λ l. blamed t ∷ l) left,
  )
  later t ts after (exhausted last) f (failed, left) = ((f, failed), ap (λ l. blamed t ∷ l) left)

  -- `dial` connects to the first target whose try succeeds; it stops at a refusal by policy, which
  -- leaves the health of that target alone; the targets tried before are observed as failed, and
  -- those behind are as they were.
  pub dial_loop-explained :
      (ts : List (Target F)) (last : Option TunnelError)
      → let out = dial_loop fl fail rise host port attempt ts last in Explains ts out.0 out.1
  unfolding dial_loop
  dial_loop-explained [] last = (tt, refl)
  dial_loop-explained (t ∷ ts) last =
      by_try (try_connect (attempt t) host port) refl (λ e. dial_loop-explained ts (some e))
    where
      by_try :
          (r : Result TunnelError Unit)
          → try_connect (attempt t) host port ≡ r
          → ((e : TunnelError)
              → let out = dial_loop fl fail rise host port attempt ts (some e) in
                Explains ts out.0 out.1)
          → let out : List (Target F) × DialResult F = elim r [
            | ok _ ↦
                let t' = observe fl t true (attempt t).micros fail rise in (t' ∷ ts, connected t')
            | err e ↦
                let t' = observe fl t false (attempt t).micros fail rise in
                let (rest, r) = dial_loop fl fail rise host port attempt ts (some e) in
                if is_policy_refusal e then (t ∷ ts, denied t e) else (t' ∷ rest, r)
          ] in
            Explains (t ∷ ts) out.0 out.1
      by_try (ok u) e ih = ([], t, ts, refl, tt, e, refl, refl)
      by_try (err x) e ih = elim (Bool-cases (is_policy_refusal x)) [
        | inl policy ↦ rw policy ([], ts, refl, tt, e, policy, refl)
        | inr other ↦
            let out = dial_loop fl fail rise host port attempt ts (some x) in
            rw other (later t ts out.0 out.1 (x, e, other) (ih x))
      ]
