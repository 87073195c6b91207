-- ===== src/Netguard.antt =====
-- shared/netguard/netguard.go: addresses that must never be reached.
pub mod Ranges
pub mod Public
use smart_dns_proxy.Prelude.{
  ℕ, zero, suc, ◌+◌, ◌-◌, ◌*◌, ◌/◌, ◌%◌, ◌^◌, ◌≤◌, ◌<◌, ◌≡◌, refl, sym, ap, ◌∙◌, ◌≢◌, ◌↔◌, ◌⊎◌, inl,
  inr, Bool, true, false, not, ◌&&◌, ◌||◌, Option, none, some, List, [], ◌∷◌, ◌++◌, map, arith, ltb,
  leb, ◌==◌, if◌then◌else◌, ltb→lt, ltb→le, lt→ltb, leb→le, leb→lt, ==_iff, tests, Bool-cases,
  Option-cases, eq_of_iff, is_some, Eq, nat_eq, beq_refl, length, is_empty, get_or, take, drop,
  keep, any, all, length-append, take-append-drop, take-append, drop-append, length-take,
  length-drop, length-keep-le, All, All-append, All-keep, elem, nodup, elem-append, elem-keep,
  All-elem, elem-All, switch, switch-All, Bytes, codes, bytes_beq, bytes_beq_refl, bytes_beq_iff,
  bytes_eq, bytes_lt, bytes_lt_irrefl, bytes_lt_asymm, bytes_lt_trans, bytes_lt_total, Result, ok,
  err, ◌>>=◌, or_else, >>=-eq-ok,
}
use smart_dns_proxy.Netip.{Addr, invalid, Prefix, prefix4, prefix6, is_valid, unmap, contains}

abbrev pub ip4 : ℕ → ℕ → ℕ → ℕ → ℕ
ip4 a b c d = ((a * 256 + b) * 256 + c) * 256 + d

-- the table `blocked`
abbrev pub blocked4 : List Prefix
blocked4 =
    prefix4 (ip4 0 0 0 0) 8
    ∷ prefix4 (ip4 10 0 0 0) 8
    ∷ prefix4 (ip4 100 64 0 0) 10
    ∷ prefix4 (ip4 127 0 0 0) 8
    ∷ prefix4 (ip4 169 254 0 0) 16
    ∷ prefix4 (ip4 172 16 0 0) 12
    ∷ prefix4 (ip4 192 0 0 0) 24
    ∷ prefix4 (ip4 192 0 2 0) 24
    ∷ prefix4 (ip4 192 88 99 0) 24
    ∷ prefix4 (ip4 192 168 0 0) 16
    ∷ prefix4 (ip4 198 18 0 0) 15
    ∷ prefix4 (ip4 198 51 100 0) 24
    ∷ prefix4 (ip4 203 0 113 0) 24
    ∷ prefix4 (ip4 224 0 0 0) 4
    ∷ prefix4 (ip4 240 0 0 0) 4
    ∷ prefix4 (ip4 255 255 255 255) 32
    ∷ []

abbrev pub blocked6 : List Prefix
blocked6 =
    prefix6 0 128
    ∷ prefix6 1 128
    ∷ prefix6 (0xffff * 2 ^ 32) 96
    ∷ prefix6 (0x64 * 2 ^ 112 + 0xff9b * 2 ^ 96) 96
    ∷ prefix6 (0x100 * 2 ^ 112) 64
    ∷ prefix6 (0x2001 * 2 ^ 112) 23
    ∷ prefix6 (0x2001 * 2 ^ 112 + 0xdb8 * 2 ^ 96) 32
    ∷ prefix6 (0x2002 * 2 ^ 112) 16
    ∷ prefix6 (0xfc00 * 2 ^ 112) 7
    ∷ prefix6 (0xfe80 * 2 ^ 112) 10
    ∷ prefix6 (0xff00 * 2 ^ 112) 8
    ∷ []

unfoldable pub is_blocked : Addr → Bool
unfolding unmap contains
is_blocked addr =
    if not (is_valid addr)
    then true
    else any (λ p. contains p (unmap addr) || contains p addr) (blocked4 ++ blocked6)

pub data GuardError : Type 0 where
  no_addresses all_blocked : GuardError
  in_blocked_range : Addr → GuardError
  -- the error of the resolver, or of parsing an address
  failed : Bytes → GuardError

unfoldable pub check_each : List Addr → Result GuardError Unit
check_each [] = ok tt
check_each (a ∷ addrs) = if is_blocked a then err (in_blocked_range a) else check_each addrs

unfoldable pub check_addrs : List Addr → Result GuardError Unit
unfolding check_each
check_addrs addrs = if is_empty addrs then err no_addresses else check_each addrs

-- `netip.ParseAddr` and `net.SplitHostPort`, and the resolver, each with its error's text
pub record Net : Type 0 where
  pub parse_addr : Bytes → Result Bytes Addr
  pub split_host : Bytes → Result Bytes Bytes
  pub lookup_ip : Bytes → Result Bytes (List Addr)

abbrev pub lift : {A : Type 0} → Result Bytes A → Result GuardError A
lift (ok a) = ok a
lift (err text) = err (failed text)

-- The `Control` function of `SafeDialerPolicy`, before a connect to the address; with
-- `allow_private` there is none.
unfoldable pub dial_control : Net → Bool → Bytes → Result GuardError Unit
dial_control net true address = ok tt
dial_control net false address = do
  host ← lift (net.split_host address)
  ip ← lift (net.parse_addr host)
  if is_blocked ip then err (in_blocked_range ip) else ok tt

-- What is left of resolved addresses.
unfoldable pub public_only : List Addr → Result GuardError (List Addr)
public_only addrs =
    let out = keep (λ a. not (is_blocked a)) addrs in
    if is_empty out then err all_blocked else ok out

unfoldable pub resolve : Net → Bytes → Bool → Result GuardError (List Addr)
unfolding public_only
resolve net host allow_private = elim (net.parse_addr host) [
  | ok ip ↦ if not allow_private && is_blocked ip then err (in_blocked_range ip) else ok (ip ∷ [])
  | err text ↦ do
    addrs ← lift (net.lookup_ip host)
    if allow_private then ok addrs else public_only addrs
]
