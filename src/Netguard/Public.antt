-- ===== src/Netguard/Public.antt =====
-- `CheckAddrs` and `Resolve` of shared/netguard/netguard.go.
use smart_dns_proxy.Prelude.{
  ◌≡◌, refl, sym, ◌↔◌, inl, inr, Bool, true, false, not, ◌&&◌, List, [], ◌∷◌, arith, if◌then◌else◌,
  Bool-cases, nat_eq, is_empty, keep, All, Bytes, bytes_eq, Result, ok, err, ◌>>=◌,
}
use smart_dns_proxy.Netip.{Addr}
use smart_dns_proxy.Netguard.{
  is_blocked, GuardError, in_blocked_range, Net, lift, check_each, check_addrs, public_only,
  resolve,
}

abbrev pub IsPublic : Addr → Type 0
IsPublic a = is_blocked a ≡ false

check_each_sound : (addrs : List Addr) → check_each addrs ≡ ok tt → All IsPublic addrs
unfolding check_each
check_each_sound [] e = tt
check_each_sound (a ∷ addrs) e = elim (Bool-cases (is_blocked a)) [
  | inl bad ↦ cc (bad, e)
  | inr good ↦ (good, check_each_sound addrs (rw good at e))
]

check_each_complete : (addrs : List Addr) → All IsPublic addrs → check_each addrs ≡ ok tt
unfolding check_each
check_each_complete [] v = refl
check_each_complete (a ∷ addrs) (good, v) = rw good (check_each_complete addrs v)

-- `CheckAddrs` passes exactly a list with addresses in it, all of them public.
pub check_addrs_iff :
    (addrs : List Addr)
    → (check_addrs addrs ≡ ok tt) ↔ ((is_empty addrs ≡ false) × All IsPublic addrs)
unfolding check_addrs
check_addrs_iff [] = (λ e. cc, λ v. cc (v.0))
check_addrs_iff (a ∷ addrs) =
    (λ e. (refl, check_each_sound (a ∷ addrs) e), λ v. check_each_complete (a ∷ addrs) v.1)

keep-All : (p : Addr → Bool) (addrs : List Addr) → All (λ a. p a ≡ true) (keep p addrs)
keep-All p [] = tt
keep-All p (a ∷ addrs) = elim (Bool-cases (p a)) [
  | inl good ↦ rw good (good, keep-All p addrs)
  | inr bad ↦ rw bad (keep-All p addrs)
]

not_blocked : (addrs : List Addr) → All (λ a. not (is_blocked a) ≡ true) addrs → All IsPublic addrs
not_blocked [] v = tt
not_blocked (a ∷ addrs) (good, v) = (ground arith, not_blocked addrs v)

-- Without `allow_private`, `Resolve` returns addresses only if there are some, and all are public,
-- for a literal address and for whatever the resolver answers.
pub resolve-IsPublic :
    (net : Net) (host : Bytes) (addrs : List Addr)
    → resolve net host false ≡ ok addrs
    → (is_empty addrs ≡ false) × All IsPublic addrs
unfolding resolve public_only
resolve-IsPublic net host addrs e = parsed (net.parse_addr host) e
  where
    filtered :
        (found : List Addr)
        → (if is_empty (keep (λ a. not (is_blocked a)) found)
            then err GuardError.all_blocked
            else ok (keep (λ a. not (is_blocked a)) found))
          ≡ ok addrs
        → (is_empty addrs ≡ false) × All IsPublic addrs
    filtered found q =
        let out = keep (λ a. not (is_blocked a)) found in
        let good = not_blocked out (keep-All (λ a. not (is_blocked a)) found) in
        elim (Bool-cases (is_empty out)) [
          | inl nothing ↦ cc (nothing, q)
          | inr some_left ↦ let same : out ≡ addrs = ground arith in rw (sym same) (some_left, good)
        ]

    looked_up :
        (r : Result Bytes (List Addr))
        → (lift r >>= λ found. public_only found) ≡ ok addrs
        → (is_empty addrs ≡ false) × All IsPublic addrs
    looked_up (ok found) q = filtered found q
    looked_up (err text) q = cc

    parsed :
        (r : Result Bytes Addr)
        → elim r [
          | ok ip ↦ if not false && is_blocked ip then err (in_blocked_range ip) else ok (ip ∷ [])
          | err text ↦ (lift (net.lookup_ip host) >>= λ found. public_only found)
        ]
          ≡ ok addrs
        → (is_empty addrs ≡ false) × All IsPublic addrs
    parsed (ok ip) q = elim (Bool-cases (is_blocked ip)) [
      | inl bad ↦ cc (bad, q)
      | inr good ↦ let same : ip ∷ [] ≡ addrs = ground arith in rw (sym same) (refl, (good, tt))
    ]
    parsed (err text) q = looked_up (net.lookup_ip host) q
