-- ===== src/Dns/Answer.antt =====
-- The answers of the DNS server of node/dnsfe/server.go for the names of services.
use smart_dns_proxy.Prelude.{
  ℕ, zero, suc, ◌+◌, ◌%◌, ◌^◌, ◌≤◌, ◌<◌, ◌≡◌, refl, ◌⊎◌, inl, inr, Bool, true, false, List, [], ◌∷◌,
  ◌++◌, arith, ltb, ◌==◌, if◌then◌else◌, nat_eq, length, take, drop, take-append-drop, All,
  All-append, bytes_eq,
}
use mathlib.Core.Path.{subst}
use mathlib.Core.List.{Perm, perm_append_comm}
use mathlib.Core.List.Perm
use smart_dns_proxy.Model.{Service, DnsConfig}
use smart_dns_proxy.Dns.{Rr}
use smart_dns_proxy.Dns.Handler.{rotate, effective_ttl}

-- The TTL of a reply is positive. It is at most the maximum of the configuration, unless that is zero,
-- or the service's TTL and the minimum are both zero and it is 60; and at least the minimum, unless the
-- maximum is smaller and it is the maximum.
pub effective_ttl_bounds :
    (svc : Service) (dns : DnsConfig)
    → let ttl = effective_ttl svc dns in
      (1 ≤ ttl)
      × ((dns.max_ttl ≡ 0) ⊎ ((svc.ttl ≡ 0) × (dns.min_ttl ≡ 0) × (ttl ≡ 60)) ⊎ (ttl ≤ dns.max_ttl))
      × ((dns.min_ttl ≤ ttl) ⊎ ((ttl ≡ dns.max_ttl) × (dns.max_ttl < dns.min_ttl)))
unfolding effective_ttl
effective_ttl_bounds svc dns = (
  ground arith,
  by_max (dns.max_ttl == 0) (svc.ttl == 0) (dns.min_ttl == 0) refl refl refl,
  by_min (ltb dns.max_ttl dns.min_ttl) (dns.max_ttl == 0) refl refl,
)
  where
    by_max :
        (z t m : Bool)
        → (dns.max_ttl == 0) ≡ z
        → (svc.ttl == 0) ≡ t
        → (dns.min_ttl == 0) ≡ m
        → (dns.max_ttl ≡ 0)
          ⊎ ((svc.ttl ≡ 0) × (dns.min_ttl ≡ 0) × (effective_ttl svc dns ≡ 60))
          ⊎ (effective_ttl svc dns ≤ dns.max_ttl)
    by_max true t m e f g = inl (ground arith)
    by_max false true true e f g = inr (inl (ground arith, ground arith, ground arith))
    by_max false false m e f g = inr (inr (ground arith))
    by_max false true false e f g = inr (inr (ground arith))

    by_min :
        (small z : Bool)
        → ltb dns.max_ttl dns.min_ttl ≡ small
        → (dns.max_ttl == 0) ≡ z
        → (dns.min_ttl ≤ effective_ttl svc dns)
          ⊎ ((effective_ttl svc dns ≡ dns.max_ttl) × (dns.max_ttl < dns.min_ttl))
    by_min true false e f = inr (ground arith, ground arith)
    by_min true true e f = inl (ground arith)
    by_min false z e f = inl (ground arith)

module _ {κ} (P : Rr → Type κ) where
  All-take : (n : ℕ) (xs : List Rr) → All P xs → All P (take n xs)
  All-take zero xs h = tt
  All-take (suc n) [] h = tt
  All-take (suc n) (x ∷ xs) h = (h.0, All-take n xs h.1)

  All-drop : (n : ℕ) (xs : List Rr) → All P xs → All P (drop n xs)
  All-drop zero xs h = h
  All-drop (suc n) [] h = tt
  All-drop (suc n) (x ∷ xs) h = All-drop n xs h.1

  pub rotate-All : (seed : ℕ) (xs : List Rr) → All P xs → All P (rotate seed xs).0
  unfolding rotate
  rotate-All seed xs h =
      let n = (seed + 1) % 2 ^ 32 % length xs in by_turn (ltb (length xs) 2) (n == 0) n
    where
      by_turn :
          (short still : Bool) (n : ℕ)
          → let r : List Rr × ℕ =
              if short
              then (xs, seed)
              else if still
              then (xs, (seed + 1) % 2 ^ 32)
              else (drop n xs ++ take n xs, (seed + 1) % 2 ^ 32) in
            All P (r.0)
      by_turn true still n = h
      by_turn false true n = h
      by_turn false false n =
          All-append P (drop n xs) (take n xs) (All-drop n xs h) (All-take n xs h)

-- Rotation keeps the answers, each as often as before.
pub rotate-perm : (seed : ℕ) (xs : List Rr) → Perm (rotate seed xs).0 xs
unfolding rotate
rotate-perm seed xs =
    by_turn (ltb (length xs) 2) ((seed + 1) % 2 ^ 32 % length xs == 0)
      ((seed + 1) % 2 ^ 32 % length xs)
  where
    by_turn :
        (short still : Bool) (n : ℕ)
        → let r : List Rr × ℕ =
            if short
            then (xs, seed)
            else if still
            then (xs, (seed + 1) % 2 ^ 32)
            else (drop n xs ++ take n xs, (seed + 1) % 2 ^ 32) in
          Perm (r.0) xs
    by_turn true still n = Perm.refl xs
    by_turn false true n = Perm.refl xs
    by_turn false false n =
        subst (λ ys. Perm (drop n xs ++ take n xs) ys) (take-append-drop n xs)
          (perm_append_comm (drop n xs) (take n xs))
