-- ===== src/Domainset/Host/Normal.antt =====
-- The results of `NormalizeHost` in shared/domainset/domainset.go.
use mathlib.Core.List.{reverse, reverse-reverse, reverse-append}
use smart_dns_proxy.Prelude.{
  ℕ, ◌≤◌, ◌<◌, ◌≡◌, refl, ap, ◌∙◌, inl, inr, Bool, true, false, ◌||◌, some, List, [], ◌∷◌, map,
  arith, ◌==◌, if◌then◌else◌, lt→ltb, Bool-cases, nat_eq, length, is_empty, All, All-append, Bytes,
  bytes_eq, Result, ok, err, or_else, >>=-eq-ok,
}
use smart_dns_proxy.Platform.{Platform}
use smart_dns_proxy.Strings.{
  to_lower, lower_byte, is_ascii, trim_space, trim_left, is_space, trim_prefix, trim_last,
  has_prefix, split, push, dot, bom,
}
use smart_dns_proxy.Strings.Laws.{length-split}
use smart_dns_proxy.Domainset.Host.{
  HostError, empty, idna, is_label_byte, validate_host, normalize_host,
}
use smart_dns_proxy.Domainset.Host.Laws.{
  IsLabel, IsHost, validate_host_iff, tail_labels, tail-push, All-tail, Unit_eta,
}

-- A name that `NormalizeHost` returns is a host name.
pub normalize_host-IsHost :
    (pl : Platform) (raw h : Bytes) → normalize_host pl raw ≡ ok h → IsHost h
unfolding normalize_host
normalize_host-IsHost pl raw h e =
    let s = trim_prefix (trim_space pl raw) bom in
    let t = trim_last dot s in
    let (kept, e₁) = first_guard (is_empty s || is_empty t) e in
    let (a, converted, e₂) = >>=-eq-ok (or_else (pl.to_ascii t) idna) _ e₁ in
    let (u, valid, e₃) = >>=-eq-ok (validate_host (to_lower pl a)) _ e₂ in
    let same : to_lower pl a ≡ h = ok_injective e₃ in
    rw same at ((validate_host_iff (to_lower pl a)).0 (valid ∙ ap ok (Unit_eta u)))
  where
    ok_injective : {x y : Bytes} → ◌≡◌ {A = Result HostError Bytes} (ok x) (ok y) → x ≡ y
    ok_injective q = cc

    first_guard :
        (b : Bool) {r : Result HostError Bytes}
        → (if b then err empty else r) ≡ ok h
        → (b ≡ false) × (r ≡ ok h)
    first_guard true q = cc
    first_guard false q = (refl, q)

-- The bytes of a host name: those of its labels, and dots.
abbrev IsHostByte : ℕ → Type 0
IsHostByte c = (c < 128) × (is_space c ≡ false) × (lower_byte c ≡ c)

label_byte_lem : (c : ℕ) → is_label_byte c ≡ true → IsHostByte c
unfolding is_label_byte is_space lower_byte
label_byte_lem c h = ground arith

bytes_of_labels :
    (h : Bytes) → All (All (λ c. is_label_byte c ≡ true)) (split dot h) → All IsHostByte h
unfolding split is_space lower_byte
bytes_of_labels [] a = tt
bytes_of_labels (x ∷ h) a = elim (Bool-cases (x == dot)) [
  | inl at ↦ (ground arith, bytes_of_labels h (rw at at a).1)
  | inr off ↦
      let (first, rest) = by_shape (split dot h) (rw off at a) (omega (arith, length-split h)) in
      (label_byte_lem x first, bytes_of_labels h rest)
]
  where
    by_shape :
        (ls : List Bytes)
        → All (All (λ c. is_label_byte c ≡ true)) (push x ls)
        → 1 ≤ length ls
        → (is_label_byte x ≡ true) × All (All (λ c. is_label_byte c ≡ true)) ls
    by_shape [] a n = absurd (omega arith)
    by_shape (l ∷ ls) a n = unfold push in (a.0.0, (a.0.1, a.1))

labels_bytes : (ls : List Bytes) → All IsLabel ls → All (All (λ c. is_label_byte c ≡ true)) ls
labels_bytes [] a = tt
labels_bytes (l ∷ ls) (v, a) = (v.bytes, labels_bytes ls a)

is_ascii_lem : (h : Bytes) → All IsHostByte h → is_ascii h ≡ true
unfolding is_ascii
is_ascii_lem [] a = refl
is_ascii_lem (c ∷ h) a = rw (lt→ltb c 128 a.0.0) (is_ascii_lem h a.1)

map-lower_byte : (h : Bytes) → All IsHostByte h → map lower_byte h ≡ h
map-lower_byte [] a = refl
map-lower_byte (c ∷ h) a = cc (a.0.2, map-lower_byte h a.1)

trim_left_lem : (h : Bytes) → All IsHostByte h → trim_left h ≡ h
unfolding trim_left
trim_left_lem [] a = refl
trim_left_lem (c ∷ h) a = rw (a.0.1)

All-reverse : (h : Bytes) → All IsHostByte h → All IsHostByte (reverse h)
All-reverse [] a = tt
All-reverse (c ∷ h) a =
    rw (reverse-append (c ∷ []) h)
      (All-append IsHostByte (reverse h) (c ∷ []) (All-reverse h a.1) (a.0, tt))

trim_space_lem : (pl : Platform) (h : Bytes) → All IsHostByte h → trim_space pl h ≡ h
unfolding trim_space
trim_space_lem pl h a =
    rw (is_ascii_lem h a) (
      rw (trim_left_lem h a) (rw (trim_left_lem (reverse h) (All-reverse h a)) (reverse-reverse h)))

trim_last_lem : (h : Bytes) → All IsLabel (tail_labels (split dot h)) → trim_last dot h ≡ h
unfolding trim_last
trim_last_lem [] a = refl
trim_last_lem (x ∷ []) a = elim (Bool-cases (x == dot)) [
  | inl at ↦ absurd (unfold split tail_labels in no_empty_label (rw at at a).0)
  | inr off ↦ rw off
]
  where
    no_empty_label : IsLabel [] → ⊥
    no_empty_label v = let n : 1 ≤ 0 = v.nonempty in omega arith
trim_last_lem (x ∷ y ∷ s) a =
    ap (λ l. x ∷ l)
      (trim_last_lem (y ∷ s) (elim (Bool-cases (x == dot)) [
        | inl at ↦ All-tail (split dot (y ∷ s)) (unfold split tail_labels in rw at at a)
        | inr off ↦
            let q : tail_labels (split dot (x ∷ y ∷ s)) ≡ tail_labels (split dot (y ∷ s)) =
              unfold split in rw off (tail-push x (y ∷ s)) in
            rw q at a
      ]))

-- A host name that IDNA maps to itself is returned as it is: normalizing twice changes nothing.
pub normalize_host_fixed :
    (pl : Platform) (h : Bytes) → IsHost h → pl.to_ascii h ≡ some h → normalize_host pl h ≡ ok h
unfolding normalize_host
normalize_host_fixed pl h v e =
    let a : All IsHostByte h = bytes_of_labels h (labels_bytes (split dot h) v.labels) in
    let full : is_empty h ≡ false = nonempty h v in
    rw (trim_space_lem pl h a) (
      rw (no_bom h a) (
        rw (trim_last_lem h (All-tail (split dot h) v.labels))
          (rw full (rw e (rw (lowered a) (rw ((validate_host_iff h).1 v)))))))
  where
    nonempty : (h : Bytes) → IsHost h → is_empty h ≡ false
    nonempty [] v = absurd (let n : 2 ≤ 1 = unfold split in v.two in omega arith)
    nonempty (c ∷ h) v = refl

    no_bom : (h : Bytes) → All IsHostByte h → trim_prefix h bom ≡ h
    no_bom [] a = unfold trim_prefix in refl
    no_bom (c ∷ h) a =
        let q : (c == 239) ≡ false = ground (arith, a.0.0) in unfold trim_prefix has_prefix in rw q

    lowered : All IsHostByte h → to_lower pl h ≡ h
    lowered a = unfold to_lower in rw (is_ascii_lem h a) (map-lower_byte h a)
