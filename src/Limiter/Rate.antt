-- ===== src/Limiter/Rate.antt =====
-- `allow` of node/dnsfe/limiter.go: what one bucket lets through.
use smart_dns_proxy.Prelude.{
  ℕ, ◌+◌, ◌-◌, ◌*◌, ◌≤◌, ◌<◌, ◌≡◌, refl, ap, inl, inr, List, [], ◌∷◌, arith, if◌then◌else◌,
  Bool-cases, nat_eq, bytes_eq,
}
use smart_dns_proxy.Limiter.{Bucket, second, minute, take_token, cap_at, fresh}

-- The calls at these times, and how many pass.
unfoldable pub run : ℕ → ℕ → Bucket → List ℕ → Bucket × ℕ
run qps burst b [] = (b, 0)
run qps burst b (now ∷ times) =
    let (b', passed) = take_token qps burst b now in
    let (b'', n) = run qps burst b' times in (b'', if passed then n + 1 else n)

-- Times in order, none before the given one.
abbrev pub Ordered : ℕ → List ℕ → Type 0
Ordered t [] = Unit
Ordered t (now ∷ times) = (t ≤ now) × Ordered now times

abbrev pub last_time : ℕ → List ℕ → ℕ
last_time t [] = t
last_time t (now ∷ times) = last_time now times

take_token_lem :
    (qps burst : ℕ) (b : Bucket) (now : ℕ)
    → b.ts ≤ now
    → let (b', passed) = take_token qps burst b now in
      (b'.tokens ≤ burst * second)
      × (b'.ts ≡ now)
      × (b'.tokens + (if passed then second else 0) ≤ b.tokens + (now - b.ts) * qps)
unfolding take_token cap_at
take_token_lem qps burst b now h = ground arith

last_time-le : (t : ℕ) (times : List ℕ) → Ordered t times → t ≤ last_time t times
last_time-le t [] h = omega arith
last_time-le t (now ∷ times) h = omega (arith, h.0, last_time-le now times h.1)

run_lem :
    (qps burst : ℕ) (b : Bucket) (t : ℕ) (times : List ℕ)
    → b.ts ≡ t
    → Ordered t times
    → (run qps burst b times).1 * second + (run qps burst b times).0.tokens
      ≤ b.tokens + (last_time t times - t) * qps
unfolding run
run_lem qps burst b t [] e h = omega arith
run_lem qps burst b t (now ∷ times) e h =
    let s = take_token qps burst b now in
    let (full, stamp, paid) = take_token_lem qps burst b now (omega (arith, h.0)) in
    let ih = run_lem qps burst s.0 now times stamp h.1 in
    let later = last_time-le now times h.1 in
    let split : last_time now times - t ≡ (now - t) + (last_time now times - now) =
      omega (arith, h.0) in
    let scaled = ap (λ (d : ℕ). d * qps) split in
    let here : (now - b.ts) * qps ≡ (now - t) * qps = ap (λ d. (now - d) * qps) e in
    elim (Bool-cases s.1) [
      | inl passed ↦ rw passed (omega (arith, rw passed at paid, ih, scaled, here))
      | inr refused ↦ rw refused (omega (arith, rw refused at paid, ih, scaled, here))
    ]

-- Between two readings of the clock a full bucket lets through at most its burst, and `qps` for each
-- second: with tokens of 10^9 units, the calls that pass are worth no more than that.
pub run_rate :
    (qps burst t : ℕ) (times : List ℕ)
    → Ordered t times
    → (run qps burst (fresh burst t) times).1 * second
      ≤ burst * second + (last_time t times - t) * qps
run_rate qps burst t times h = omega (arith, run_lem qps burst (fresh burst t) t times refl h)

-- A bucket that was idle for more than five minutes may be forgotten: if five minutes refill it, the
-- next call is answered as by a new bucket.
pub take_token-idle :
    (qps burst now : ℕ) (b : Bucket)
    → 5 * minute < now - b.ts
    → burst * second ≤ 5 * minute * qps
    → take_token qps burst b now ≡ take_token qps burst (fresh burst now) now
unfolding take_token
take_token-idle qps burst now b idle refills =
    let gained : 5 * minute * qps ≤ (now - b.ts) * qps = grind arith in
    rw (cap_full (burst * second) (b.tokens + (now - b.ts) * qps) (omega (arith, gained)))
      (rw (cap_full (burst * second) (burst * second + (now - now) * qps) (omega arith)))
  where
    cap_full : (full tokens : ℕ) → full ≤ tokens → cap_at full tokens ≡ full
    cap_full full tokens h = unfold cap_at in ground arith
