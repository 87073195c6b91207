-- ===== src/Limiter/Isolation.antt =====
-- `allow` of node/dnsfe/limiter.go: the buckets of other keys.
use smart_dns_proxy.Prelude.{
  ℕ, ◌≡◌, refl, true, false, some, List, [], ◌∷◌, arith, if◌then◌else◌, nat_eq, bytes_eq,
}
use smart_dns_proxy.Netip.{Addr, Prefix, prefix_beq, prefix_beq_iff, prefix_eq, is_valid}
use smart_dns_proxy.Limiter.{Bucket, Limiter, key, lookup, store, collect, allow}

lookup-store :
    (k j : Prefix) (b : Bucket) (m : List (Prefix × Bucket))
    → lookup j (store k b m) ≡ (if prefix_beq k j then some b else lookup j m)
unfolding lookup store
lookup-store k j b [] = refl
lookup-store k j b ((i, c) ∷ m) =
    ground (arith, prefix_beq_iff k j, prefix_beq_iff i k, prefix_beq_iff i j, lookup-store k j b m)

-- A call for one address leaves the bucket of every other key as the collection left it.
pub allow-isolated :
    (l : Limiter) (ip : Addr) (now : ℕ) (j : Prefix)
    → prefix_beq (key ip) j ≡ false
    → is_valid ip ≡ true
    → lookup j (allow l ip now).0.tokens ≡ lookup j (collect l now).tokens
unfolding allow
allow-isolated l ip now j other valid = rw valid (rw lookup-store (rw other))
