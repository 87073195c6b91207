-- ===== src/Netip.antt =====
-- `net/netip` as far as the program uses it: addresses and prefixes.
use smart_dns_proxy.Prelude.{
  ℕ, ◌-◌, ◌*◌, ◌/◌, ◌%◌, ◌^◌, ◌≡◌, ◌↔◌, Bool, true, false, ◌&&◌, Option, none, some, [], arith, ltb,
  ◌==◌, if◌then◌else◌, Eq, nat_eq, Bytes, bytes_eq,
}

-- A zone is empty where an address has none.
pub data Addr : Type 0 where
  invalid : Addr
  v4 : ℕ → Addr
  v6 : ℕ → Bytes → Addr

-- The address of a prefix, by its family, and the number of leading bits.
pub data Prefix : Type 0 where
  prefix4 prefix6 : ℕ → ℕ → Prefix

abbrev pub prefix_beq : Prefix → Prefix → Bool
prefix_beq (prefix4 a m) (prefix4 b n) = a == b && m == n
prefix_beq (prefix6 a m) (prefix6 b n) = a == b && m == n
prefix_beq _ _ = false

pub prefix_beq_iff : (p q : Prefix) → (prefix_beq p q ≡ true) ↔ (p ≡ q)
prefix_beq_iff (prefix4 a m) (prefix4 b n) = (λ h. ground arith, λ h. ground arith)
prefix_beq_iff (prefix6 a m) (prefix6 b n) = (λ h. ground arith, λ h. ground arith)
prefix_beq_iff _ _ = (λ h. cc, λ h. cc)

instance abbrev pub prefix_eq : Eq Prefix
prefix_eq = record { beq = prefix_beq; beq_iff = prefix_beq_iff }

abbrev pub is_valid : Addr → Bool
is_valid invalid = false
is_valid _ = true

-- `Is6`: IPv4-mapped addresses too
abbrev pub is6 : Addr → Bool
is6 (v6 n zone) = true
is6 _ = false

-- an address of ::ffff:0:0/96 becomes the IPv4 address in it
unfoldable pub unmap : Addr → Addr
unmap invalid = invalid
unmap (v4 n) = v4 n
unmap (v6 n zone) = if n / 2 ^ 32 == 0xffff then v4 (n % 2 ^ 32) else v6 n zone

-- `Prefix.Contains`: of the same family, with no zone, and the same leading bits
unfoldable pub contains : Prefix → Addr → Bool
contains (prefix4 p bits) (v4 a) = let k = 2 ^ (32 - bits) in a / k == p / k
contains (prefix6 p bits) (v6 a []) = let k = 2 ^ (128 - bits) in a / k == p / k
contains _ _ = false

-- `Addr.Prefix(bits)`: the prefix with the other bits cleared and the zone dropped
unfoldable pub prefix_of : Addr → ℕ → Option Prefix
prefix_of invalid bits = none
prefix_of (v4 a) bits =
    if ltb 32 bits then none else (let k = 2 ^ (32 - bits) in some (prefix4 (a / k * k) bits))
prefix_of (v6 a zone) bits =
    if ltb 128 bits then none else (let k = 2 ^ (128 - bits) in some (prefix6 (a / k * k) bits))
