-- ===== src/Selector/Health.antt =====
-- `observe` of node/proxy/selector.go, with the same result many times in a row.
use smart_dns_proxy.Prelude.{
  ℕ, zero, suc, ◌+◌, ◌≤◌, ◌≡◌, ap, ◌∙◌, Bool, true, false, not, arith, ltb, leb, nat_eq, bytes_eq,
}
use smart_dns_proxy.Selector.{Float, Target, observe}

module _ {F : Type 0} (fl : Float F) (fail rise : ℕ) where
  -- The same result so many times in a row.
  unfoldable pub observe_times : ℕ → Bool → ℕ → Target F → Target F
  observe_times zero good micros t = t
  observe_times (suc k) good micros t =
      observe_times k good micros (observe fl t good micros fail rise)

  down_from :
      (k micros : ℕ) (t : Target F)
      → t.healthy ≡ not (leb fail t.fails)
      → let u = observe_times k false micros t in
        (u.healthy ≡ not (leb fail (t.fails + k))) × (u.fails ≡ t.fails + k)
  unfolding observe_times observe
  down_from zero micros t h = (ground arith, omega arith)
  down_from (suc k) micros t h =
      let next = observe fl t false micros fail rise in
      let still : next.healthy ≡ not (leb fail next.fails) = ground arith in
      let (verdict, counted) = down_from k micros next still in
      let sum : next.fails + k ≡ t.fails + suc k = omega arith in
      (verdict ∙ ap (λ n. not (leb fail n)) sum, counted ∙ sum)

  -- A healthy target with no failure behind it is still healthy after `k` failures in a row exactly
  -- if `k` is below the threshold.
  pub observe_times-down :
      (k micros : ℕ) (t : Target F)
      → t.healthy ≡ true
      → t.fails ≡ 0
      → 1 ≤ fail
      → (observe_times k false micros t).healthy ≡ ltb k fail
  observe_times-down k micros t h z one =
      let (verdict, counted) = down_from k micros t (ground arith) in verdict ∙ ground arith

  up_from :
      (k micros : ℕ) (t : Target F)
      → t.healthy ≡ leb rise t.successes
      → let u = observe_times k true micros t in
        (u.healthy ≡ leb rise (t.successes + k)) × (u.successes ≡ t.successes + k)
  unfolding observe_times observe
  up_from zero micros t h = (ground arith, omega arith)
  up_from (suc k) micros t h =
      let next = observe fl t true micros fail rise in
      let still : next.healthy ≡ leb rise next.successes = ground arith in
      let (verdict, counted) = up_from k micros next still in
      let sum : next.successes + k ≡ t.successes + suc k = omega arith in
      (verdict ∙ ap (λ n. leb rise n) sum, counted ∙ sum)

  -- An unhealthy target with no success behind it is healthy again after `k` successes in a row
  -- exactly if `k` reaches the threshold.
  pub observe_times-up :
      (k micros : ℕ) (t : Target F)
      → t.healthy ≡ false
      → t.successes ≡ 0
      → 1 ≤ rise
      → (observe_times k true micros t).healthy ≡ leb rise k
  observe_times-up k micros t h z one =
      let (verdict, counted) = up_from k micros t (ground arith) in verdict ∙ ground arith
