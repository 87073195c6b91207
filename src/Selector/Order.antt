-- ===== src/Selector/Order.antt =====
-- `order` of node/proxy/selector.go: the candidates.
use mathlib.Core.List.{Perm, perm_middle}
use mathlib.Core.List.Perm
use smart_dns_proxy.Prelude.{
  ℕ, zero, suc, ◌≡◌, refl, ap, inl, inr, Bool, false, not, List, [], ◌∷◌, ◌++◌, arith, Bool-cases,
  nat_eq, length, keep, codes, bytes_beq, bytes_eq,
}
use smart_dns_proxy.Selector.{
  Float, Target, Pool, pull, total_weight, drawn, weighted_shuffle, arrange, order,
}

module _ {F : Type 0} (fl : Float F) where
  pull-perm :
      (i : ℕ) (t : Target F) (ts : List (Target F))
      → Perm ((pull fl i t ts).0 ∷ (pull fl i t ts).1) (t ∷ ts)
  unfolding pull
  pull-perm zero t ts = Perm.refl (t ∷ ts)
  pull-perm (suc i) t [] = Perm.refl (t ∷ [])
  pull-perm (suc i) t (u ∷ ts) =
      let (picked, left) = pull fl i u ts in
      Perm.trans (Perm.swap t picked left) (Perm.cons t (pull-perm i u ts))

  length-pull :
      (i : ℕ) (t : Target F) (ts : List (Target F)) → length (pull fl i t ts).1 ≡ length ts
  unfolding pull
  length-pull zero t ts = refl
  length-pull (suc i) t [] = refl
  length-pull (suc i) t (u ∷ ts) = ap suc (length-pull i u ts)

  -- Whatever is drawn, the shuffle is a permutation, and as many rounds as targets are enough.
  pub weighted_shuffle-perm :
      (rounds : ℕ) (draw : ℕ → ℕ → ℕ) (ts : List (Target F))
      → length ts ≡ rounds
      → Perm (weighted_shuffle fl rounds draw ts) ts
  unfolding weighted_shuffle
  weighted_shuffle-perm zero draw [] e = Perm.refl []
  weighted_shuffle-perm zero draw (t ∷ ts) e = absurd (omega arith)
  weighted_shuffle-perm (suc rounds) draw [] e = Perm.refl []
  weighted_shuffle-perm (suc rounds) draw (t ∷ ts) e =
      let i = drawn fl (t ∷ ts) (draw rounds (total_weight fl (t ∷ ts))) 0 in
      let (picked, left) = pull fl i t ts in
      Perm.trans
        (Perm.cons picked
          (weighted_shuffle-perm rounds draw left (omega (arith, length-pull i t ts))))
        (pull-perm i t ts)

  split-perm :
      (p : Target F → Bool) (ts : List (Target F)) → Perm (keep p ts ++ keep (λ t. not (p t)) ts) ts
  split-perm p [] = Perm.refl []
  split-perm p (t ∷ ts) = elim (Bool-cases (p t)) [
    | inl pass ↦ rw pass (Perm.cons t (split-perm p ts))
    | inr stop ↦ rw stop (
        Perm.trans (perm_middle (keep p ts) (keep (λ u. not (p u)) ts))
          (Perm.cons t (split-perm p ts)))
  ]

  -- In every mode but "lowest_latency" and "manual_fixed" the candidates are the targets of the pool,
  -- each once, and all healthy ones come before all others.
  pub order-perm :
      (p : Pool F) (draw : ℕ → ℕ → ℕ)
      → bytes_beq p.policy.mode (codes "lowest_latency") ≡ false
      → bytes_beq p.policy.mode (codes "manual_fixed") ≡ false
      → Perm (order fl p draw).0 p.targets
        × ((first : List (Target F)) × ((order fl p draw).0
              ≡ first ++ keep (λ t. not t.healthy) p.targets)
            × Perm first (keep (λ t. t.healthy) p.targets))
  unfolding order arrange
  order-perm p draw no_latency no_fixed =
      let healthy = keep (λ t. t.healthy) p.targets in
      let rest = keep (λ t. not t.healthy) p.targets in
      let whole = split-perm (λ t. t.healthy) p.targets in
      elim (Bool-cases (bytes_beq p.policy.mode (codes "weighted"))) [
        | inl weighted ↦
            let mixed = weighted_shuffle-perm (length healthy) draw healthy refl in
            rw weighted (Perm.trans (Perm.append mixed (Perm.refl rest)) whole, (_, refl, mixed))
        | inr primary ↦
            rw primary (rw no_latency (rw no_fixed (whole, (healthy, refl, Perm.refl healthy))))
      ]
