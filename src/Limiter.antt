-- ===== src/Limiter.antt =====
-- node/dnsfe/limiter.go: a token bucket for each client prefix. Times are nanoseconds, in the order
-- in which the calls take the lock. A token is 10^9 units, so that what a bucket gains in a
-- nanosecond, `qps` units, is a whole number; the code's float64 rounds, and the model does not.
pub mod Rate
pub mod Isolation
use smart_dns_proxy.Prelude.{
  ℕ, zero, suc, ◌+◌, ◌-◌, ◌*◌, ◌/◌, ◌%◌, ◌^◌, ◌≤◌, ◌<◌, ◌≡◌, refl, sym, ap, ◌∙◌, ◌≢◌, ◌↔◌, ◌⊎◌, inl,
  inr, Bool, true, false, not, ◌&&◌, ◌||◌, Option, none, some, List, [], ◌∷◌, ◌++◌, map, arith, ltb,
  leb, ◌==◌, if◌then◌else◌, ltb→lt, ltb→le, lt→ltb, leb→le, leb→lt, ==_iff, tests, Bool-cases,
  Option-cases, eq_of_iff, is_some, Eq, nat_eq, beq_refl, length, is_empty, get_or, take, drop,
  keep, any, all, length-append, take-append-drop, take-append, drop-append, length-take,
  length-drop, length-keep-le, All, All-append, All-keep, elem, nodup, elem-append, elem-keep,
  All-elem, elem-All, switch, switch-All, Bytes, codes, bytes_beq, bytes_beq_refl, bytes_beq_iff,
  bytes_eq, bytes_lt, bytes_lt_irrefl, bytes_lt_asymm, bytes_lt_trans, bytes_lt_total, Result, ok,
  err, ◌>>=◌, or_else, >>=-eq-ok,
}
use smart_dns_proxy.Netip.{Addr, Prefix, prefix4, prefix_eq, is_valid, is6, prefix_of}

abbrev pub second : ℕ
second = 1000000000

abbrev pub minute : ℕ
minute = 60 * second

pub record Bucket : Type 0 where
  pub tokens : ℕ
  pub ts : ℕ

pub record Limiter : Type 0 where
  pub qps : ℕ
  pub burst : ℕ
  pub tokens : List (Prefix × Bucket)
  pub last : ℕ

unfoldable pub configure : Limiter → ℕ → ℕ → Limiter
configure l qps burst =
    let q = if qps == 0 then 100 else qps in
    record l { qps = q; burst = if burst == 0 then q * 5 else burst }

unfoldable pub new_limiter : ℕ → ℕ → ℕ → Limiter
unfolding configure
new_limiter now qps burst =
    configure (record { qps = 0; burst = 0; tokens = []; last = now }) qps burst

-- `Prefix` fails on no valid address with these lengths, and `allow` asks for no other: the value of
-- the failure branch is never used.
unfoldable pub key : Addr → Prefix
unfolding prefix_of
key ip = elim (prefix_of ip (if is6 ip then 64 else 24)) [ some p ↦ p | none ↦ prefix4 0 0 ]

-- reads and writes of the map
unfoldable pub lookup : Prefix → List (Prefix × Bucket) → Option Bucket
lookup k [] = none
lookup k ((j, b) ∷ m) = if prefix_eq.beq j k then some b else lookup k m

unfoldable pub store : Prefix → Bucket → List (Prefix × Bucket) → List (Prefix × Bucket)
store k b [] = (k, b) ∷ []
store k b ((j, c) ∷ m) = if prefix_eq.beq j k then (j, b) ∷ m else (j, c) ∷ store k b m

-- buckets that were last used more than five minutes ago are forgotten
unfoldable pub gc : ℕ → List (Prefix × Bucket) → List (Prefix × Bucket)
gc now [] = []
gc now ((k, b) ∷ m) = if ltb (5 * minute) (now - b.ts) then gc now m else (k, b) ∷ gc now m

unfoldable pub cap_at : ℕ → ℕ → ℕ
cap_at full tokens = if ltb full tokens then full else tokens

-- Refill, cap, and take one token if there is one.
unfoldable pub take_token : ℕ → ℕ → Bucket → ℕ → Bucket × Bool
take_token qps burst b now =
    let refilled = b.tokens + (now - b.ts) * qps in
    let capped = cap_at (burst * second) refilled in
    if ltb capped second
    then (record { tokens = capped; ts = now }, false)
    else (record { tokens = capped - second; ts = now }, true)

abbrev pub fresh : ℕ → ℕ → Bucket
fresh burst now = record { tokens = burst * second; ts = now }

abbrev pub found_or : Bucket → Option Bucket → Bucket
found_or new none = new
found_or new (some b) = b

-- the collection that is due once a minute
unfoldable pub collect : Limiter → ℕ → Limiter
unfolding gc
collect l now =
    if ltb minute (now - l.last) then record l { tokens = gc now l.tokens; last = now } else l

unfoldable pub allow : Limiter → Addr → ℕ → Limiter × Bool
unfolding key lookup store take_token cap_at collect
allow l ip now =
    let c = collect l now in
    let b = found_or (fresh c.burst now) (lookup (key ip) c.tokens) in
    let (b', passed) = take_token c.qps c.burst b now in
    if not (is_valid ip)
    then (l, false)
    else (record c { tokens = store (key ip) b' c.tokens }, passed)
