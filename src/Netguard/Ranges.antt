-- ===== src/Netguard/Ranges.antt =====
-- `IsBlocked` of shared/netguard/netguard.go: which addresses.
use smart_dns_proxy.Prelude.{
  ℕ, ◌+◌, ◌*◌, ◌/◌, ◌^◌, ◌<◌, ◌≡◌, refl, ◌≢◌, Bool, true, false, ◌&&◌, ◌||◌, List, [], ◌∷◌, ◌++◌,
  arith, leb, ◌==◌, nat_eq, drop, any, Bytes, bytes_eq,
}
use smart_dns_proxy.Netip.{Addr, v4, v6, Prefix, prefix6, unmap, contains}
use smart_dns_proxy.Netguard.{ip4, blocked4, blocked6, is_blocked}

abbrev pub within : ℕ → ℕ → ℕ → Bool
within lo hi n = leb lo n && leb n hi

-- The ranges, by their first and last addresses: this network, private, shared, loopback,
-- link-local, documentation, relay and benchmark networks, multicast and above.
abbrev pub blocked_ranges : List (ℕ × ℕ)
blocked_ranges =
    (ip4 0 0 0 0, ip4 0 255 255 255)
    ∷ (ip4 10 0 0 0, ip4 10 255 255 255)
    ∷ (ip4 100 64 0 0, ip4 100 127 255 255)
    ∷ (ip4 127 0 0 0, ip4 127 255 255 255)
    ∷ (ip4 169 254 0 0, ip4 169 254 255 255)
    ∷ (ip4 172 16 0 0, ip4 172 31 255 255)
    ∷ (ip4 192 0 0 0, ip4 192 0 0 255)
    ∷ (ip4 192 0 2 0, ip4 192 0 2 255)
    ∷ (ip4 192 88 99 0, ip4 192 88 99 255)
    ∷ (ip4 192 168 0 0, ip4 192 168 255 255)
    ∷ (ip4 198 18 0 0, ip4 198 19 255 255)
    ∷ (ip4 198 51 100 0, ip4 198 51 100 255)
    ∷ (ip4 203 0 113 0, ip4 203 0 113 255)
    ∷ (ip4 224 0 0 0, ip4 255 255 255 255)
    ∷ []

abbrev pub is_within : ℕ → ℕ × ℕ → Bool
is_within n (lo, hi) = within lo hi n

-- A prefix is a range.
module _ (n q : ℕ) where
  bits8 : (n / 16777216 == q) ≡ within (q * 16777216) (q * 16777216 + 16777215) n
  bits8 = ground arith

  bits10 : (n / 4194304 == q) ≡ within (q * 4194304) (q * 4194304 + 4194303) n
  bits10 = ground arith

  bits12 : (n / 1048576 == q) ≡ within (q * 1048576) (q * 1048576 + 1048575) n
  bits12 = ground arith

  bits15 : (n / 131072 == q) ≡ within (q * 131072) (q * 131072 + 131071) n
  bits15 = ground arith

  bits16 : (n / 65536 == q) ≡ within (q * 65536) (q * 65536 + 65535) n
  bits16 = ground arith

  bits24 : (n / 256 == q) ≡ within (q * 256) (q * 256 + 255) n
  bits24 = ground arith

or_step : {a b r s : Bool} → a ≡ b → r ≡ s → ((a || a) || r) ≡ (b || s)
or_step p q = cc (p, q, or_idem _)
  where
    or_idem : (b : Bool) → (b || b) ≡ b
    or_idem true = refl
    or_idem false = refl

-- The three prefixes from 224.0.0.0 on make one range.
upper_ranges :
    (n : ℕ)
    → n < 2 ^ 32
    → (((n / 268435456 == 14) || (n / 268435456 == 14))
        || (((n / 268435456 == 15) || (n / 268435456 == 15))
            || (((n / 1 == 4294967295) || (n / 1 == 4294967295)) || false)))
      ≡ (within (ip4 224 0 0 0) (ip4 255 255 255 255) n || false)
upper_ranges n h = ground arith

-- An IPv4 address is blocked exactly if it lies in one of the ranges.
pub is_blocked-v4 : (n : ℕ) → n < 2 ^ 32 → is_blocked (v4 n) ≡ any (is_within n) blocked_ranges
unfolding is_blocked
is_blocked-v4 n h = or_step (bits8 n 0) (
    or_step (bits8 n 10) (
      or_step (bits10 n 401) (
        or_step (bits8 n 127) (
          or_step (bits16 n 43518) (
            or_step (bits12 n 2753) (
              or_step (bits24 n 12582912) (
                or_step (bits24 n 12582914) (
                  or_step (bits24 n 12605539) (
                    or_step (bits16 n 49320) (
                      or_step (bits15 n 25353) (
                        or_step (bits24 n 12989284)
                          (or_step (bits24 n 13303921) (upper_ranges n h)))))))))))))

-- An IPv4-mapped IPv6 address with no zone is blocked, whatever the IPv4 address in it.
pub is_blocked-mapped : (n : ℕ) → n < 2 ^ 32 → is_blocked (v6 (0xffff * 2 ^ 32 + n) []) ≡ true
unfolding is_blocked
is_blocked-mapped n h =
    any-at test (blocked4 ++ prefix6 0 128 ∷ prefix6 1 128 ∷ []) (prefix6 (0xffff * 2 ^ 32) 96)
      (drop 3 blocked6) found
  where
    mapped : Addr
    mapped = v6 (0xffff * 2 ^ 32 + n) []

    test : Prefix → Bool
    test p = contains p (unmap mapped) || contains p mapped

    any-at :
        (t : Prefix → Bool) (xs : List Prefix) (y : Prefix) (ys : List Prefix)
        → t y ≡ true
        → any t (xs ++ y ∷ ys) ≡ true
    any-at t [] y ys e = ground arith
    any-at t (x ∷ xs) y ys e = ground (arith, any-at t xs y ys e)

    found : test (prefix6 (0xffff * 2 ^ 32) 96) ≡ true
    found = ground arith

-- An IPv6 address with a zone is not blocked, unless it is IPv4-mapped: neither fe80::1%eth0 nor
-- ::1%lo nor an address of fc00::/7.
pub is_blocked-zone :
    (n c : ℕ) (zone : Bytes) → n / 2 ^ 32 ≢ 0xffff → is_blocked (v6 n (c ∷ zone)) ≡ false
unfolding is_blocked
is_blocked-zone n c zone h = let e : (n / 2 ^ 32 == 0xffff) ≡ false = ground arith in rw e
