-- ===== src/Domainset/Host.antt =====
-- `NormalizeHost` and `validateHost` of shared/domainset/domainset.go.
pub mod Laws
pub mod Normal
use smart_dns_proxy.Prelude.{
  ℕ, zero, suc, ◌+◌, ◌-◌, ◌*◌, ◌/◌, ◌%◌, ◌^◌, ◌≤◌, ◌<◌, ◌≡◌, refl, sym, ap, ◌∙◌, ◌≢◌, ◌↔◌, ◌⊎◌, inl,
  inr, Bool, true, false, not, ◌&&◌, ◌||◌, Option, none, some, List, [], ◌∷◌, ◌++◌, map, arith, ltb,
  leb, ◌==◌, if◌then◌else◌, ltb→lt, ltb→le, lt→ltb, leb→le, leb→lt, ==_iff, tests, Bool-cases,
  Option-cases, eq_of_iff, is_some, Eq, nat_eq, beq_refl, length, is_empty, get_or, take, drop,
  keep, any, all, length-append, take-append-drop, take-append, drop-append, length-take,
  length-drop, length-keep-le, All, All-append, All-keep, elem, nodup, elem-append, elem-keep,
  All-elem, elem-All, Bytes, codes, bytes_beq, bytes_beq_refl, bytes_beq_iff, bytes_eq, bytes_lt,
  bytes_lt_irrefl, bytes_lt_asymm, bytes_lt_trans, bytes_lt_total, Result, ok, err, ◌>>=◌, or_else,
  >>=-eq-ok,
}
use smart_dns_proxy.Platform.{Platform}
use smart_dns_proxy.Strings.{
  to_lower, trim_space, trim_prefix, trim_last, contains, split, dot, bom,
}

pub data HostError : Type 0 where
  empty bad_length empty_label bad_label_length label_hyphen_boundary needs_two_labels : HostError
  idna : HostError
  bad_char : ℕ → HostError

abbrev pub hyphen : ℕ
hyphen = 45

-- The bytes that a label may hold.
unfoldable pub is_label_byte : ℕ → Bool
is_label_byte c = (leb b'a' c && leb c b'z') || (leb b'0' c && leb c b'9') || c == hyphen || c == 95

-- The inner loop: the first byte that is not allowed.
unfoldable pub check_bytes : Bytes → Result HostError Unit
unfolding is_label_byte
check_bytes [] = ok tt
check_bytes (c ∷ l) = if is_label_byte c then check_bytes l else err (bad_char c)

abbrev pub last_byte : ℕ → Bytes → ℕ
last_byte c [] = c
last_byte c (d ∷ l) = last_byte d l

-- `l[0] == '-' || l[len(l)-1] == '-'`
abbrev pub hyphen_at_end : Bytes → Bool
hyphen_at_end [] = false
hyphen_at_end (c ∷ l) = c == hyphen || last_byte c l == hyphen

-- One round of the loop over the labels.
unfoldable pub check_label : Bytes → Result HostError Unit
unfolding check_bytes
check_label l =
    if is_empty l || ltb 63 (length l)
    then err bad_label_length
    else do _ ← check_bytes l; if hyphen_at_end l then err label_hyphen_boundary else ok tt

unfoldable pub check_labels : List Bytes → Result HostError Unit
check_labels [] = ok tt
check_labels (l ∷ ls) = do _ ← check_label l; check_labels ls

unfoldable pub validate_host : Bytes → Result HostError Unit
validate_host h =
    if is_empty h || ltb 253 (length h)
    then err bad_length
    else if contains h (codes "..")
    then err empty_label
    else do
      _ ← check_labels (split dot h)
      if not (contains h (codes ".")) then err needs_two_labels else ok tt

unfoldable pub normalize_host : Platform → Bytes → Result HostError Bytes
normalize_host pl raw =
    let s = trim_prefix (trim_space pl raw) bom in
    let t = trim_last dot s in
    if is_empty s || is_empty t
    then err empty
    else do a ← or_else (pl.to_ascii t) idna; let h = to_lower pl a; _ ← validate_host h; ok h
