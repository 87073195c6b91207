-- ===== src/Domainset/Host/Laws.antt =====
-- What a normalized host name is, described without the checks of the code.
use smart_dns_proxy.Prelude.{
  ℕ, ◌≤◌, ◌≡◌, refl, sym, ap, ◌∙◌, ◌↔◌, inl, inr, Bool, true, false, not, ◌||◌, List, [], ◌∷◌,
  arith, ltb, ◌==◌, if◌then◌else◌, ltb→lt, lt→ltb, Bool-cases, nat_eq, length, is_empty, All, Bytes,
  codes, bytes_eq, Result, ok, err, ◌>>=◌, >>=-eq-ok,
}
use smart_dns_proxy.Strings.Laws.{dots, length-split}
use smart_dns_proxy.Strings.{contains, has_prefix, split, push, dot}
use smart_dns_proxy.Domainset.Host.{
  HostError, is_label_byte, check_bytes, hyphen_at_end, check_label, check_labels, validate_host,
}

-- 1 to 63 bytes of a-z, 0-9, `-`, `_`, the first and the last of them no `-`.
pub record IsLabel (l : Bytes) : Type 0 where
  pub nonempty : 1 ≤ length l
  pub short : length l ≤ 63
  pub bytes : All (λ c. is_label_byte c ≡ true) l
  pub ends : hyphen_at_end l ≡ false

-- At most 253 bytes, in two labels or more.
pub record IsHost (h : Bytes) : Type 0 where
  pub short : length h ≤ 253
  pub labels : All IsLabel (split dot h)
  pub two : 2 ≤ length (split dot h)

-- A check that passed, and what is left of the checks behind it.
guard_passes :
    {E : Type 0} (b : Bool) (e : E) (rest : Result E Unit)
    → (if b then err e else rest) ≡ ok tt
    → (b ≡ false) × (rest ≡ ok tt)
guard_passes true e rest h = cc
guard_passes false e rest h = (refl, h)

check_bytes→All : (l : Bytes) → check_bytes l ≡ ok tt → All (λ c. is_label_byte c ≡ true) l
unfolding check_bytes
check_bytes→All [] e = tt
check_bytes→All (c ∷ l) e = elim (Bool-cases (is_label_byte c)) [
  | inl good ↦ (good, check_bytes→All l (rw good at e))
  | inr bad ↦ cc (bad, e)
]

All→check_bytes : (l : Bytes) → All (λ c. is_label_byte c ≡ true) l → check_bytes l ≡ ok tt
unfolding check_bytes
All→check_bytes [] a = refl
All→check_bytes (c ∷ l) (good, a) = rw good (All→check_bytes l a)

check_label→IsLabel : (l : Bytes) → check_label l ≡ ok tt → IsLabel l
unfolding check_label
check_label→IsLabel [] e = cc
check_label→IsLabel (c ∷ l) e =
    let (fits, rest) = guard_passes (ltb 63 (length (c ∷ l))) _ _ e in
    let (u, checked, last) = >>=-eq-ok (check_bytes (c ∷ l)) _ rest in
    record {
      nonempty = omega arith;
      short = ground arith;
      bytes = check_bytes→All (c ∷ l) checked;
      ends = (guard_passes (hyphen_at_end (c ∷ l)) _ _ last).0;
    }

IsLabel→check_label : (l : Bytes) → IsLabel l → check_label l ≡ ok tt
unfolding check_label
IsLabel→check_label [] v = absurd (let h : 1 ≤ 0 = v.nonempty in omega arith)
IsLabel→check_label (c ∷ l) v =
    let fits : ltb 63 (length (c ∷ l)) ≡ false = ground (arith, v.short) in
    rw fits (rw (All→check_bytes (c ∷ l) v.bytes) (rw v.ends))

check_labels→All : (ls : List Bytes) → check_labels ls ≡ ok tt → All IsLabel ls
unfolding check_labels
check_labels→All [] e = tt
check_labels→All (l ∷ ls) e =
    let (u, first, rest) = >>=-eq-ok (check_label l) _ e in
    (check_label→IsLabel l (first ∙ ap ok (Unit_eta u)), check_labels→All ls rest)
  where
    Unit_eta : (u : Unit {0}) → u ≡ tt
    Unit_eta u = refl

All→check_labels : (ls : List Bytes) → All IsLabel ls → check_labels ls ≡ ok tt
unfolding check_labels
All→check_labels [] a = refl
All→check_labels (l ∷ ls) (v, a) = rw (IsLabel→check_label l v) (All→check_labels ls a)

-- The two tests for dots, by the labels: an empty label, and two labels.
contains_dot : (h : Bytes) → contains h (codes ".") ≡ ltb 0 (dots h)
unfolding contains has_prefix dots
contains_dot [] = refl
contains_dot (x ∷ h) = ground (arith, contains_dot h)

starts_empty : List Bytes → Bool
starts_empty ([] ∷ ls) = true
starts_empty _ = false

split-dot : (h : Bytes) → has_prefix h (codes ".") ≡ true → starts_empty (split dot h) ≡ true
unfolding has_prefix split starts_empty push
split-dot [] e = cc
split-dot (x ∷ h) e = let at : (x == dot) ≡ true = ground arith in rw at

starts_empty-not : (ls : List Bytes) → All IsLabel ls → starts_empty ls ≡ false
unfolding starts_empty
starts_empty-not [] a = refl
starts_empty-not ([] ∷ ls) (v, a) = absurd (let h : 1 ≤ 0 = v.nonempty in omega arith)
starts_empty-not ((c ∷ l) ∷ ls) a = refl

unfoldable pub tail_labels : List Bytes → List Bytes
tail_labels [] = []
tail_labels (l ∷ ls) = ls

pub tail-push : (c : ℕ) (h : Bytes) → tail_labels (push c (split dot h)) ≡ tail_labels (split dot h)
unfolding tail_labels push
tail-push c h = by_shape (split dot h) (omega (arith, length-split h))
  where
    by_shape : (ls : List Bytes) → 1 ≤ length ls → tail_labels (push c ls) ≡ tail_labels ls
    by_shape [] n = absurd (omega arith)
    by_shape (l ∷ ls) n = refl

pub All-tail : (ls : List Bytes) → All IsLabel ls → All IsLabel (tail_labels ls)
unfolding tail_labels
All-tail [] a = a
All-tail (l ∷ ls) a = a.1

contains-two_dots :
    (h : Bytes) → All IsLabel (tail_labels (split dot h)) → contains h (codes "..") ≡ false
unfolding contains has_prefix
contains-two_dots [] a = refl
contains-two_dots (x ∷ h) a = elim (Bool-cases (x == dot)) [
  | inl at ↦
      let ls : All IsLabel (split dot h) = unfold tail_labels split in rw at at a in
      let start : has_prefix h (codes ".") ≡ false = elim (Bool-cases (has_prefix h (codes "."))) [
        | inl second ↦ cc (split-dot h second, starts_empty-not (split dot h) ls)
        | inr other ↦ other
      ] in
      rw at (rw start (contains-two_dots h (All-tail (split dot h) ls)))
  | inr off ↦
      let q : tail_labels (split dot (x ∷ h)) ≡ tail_labels (split dot h) =
        unfold split in rw off (tail-push x h) in
      rw off (contains-two_dots h (rw q at a))
]

length-two : (h : Bytes) → (2 ≤ length (split dot h)) ↔ (contains h (codes ".") ≡ true)
length-two h = (
  λ n. contains_dot h ∙ lt→ltb 0 (dots h) (omega (arith, length-split h)),
  λ e. omega (arith, length-split h, ltb→lt 0 (dots h) (sym (contains_dot h) ∙ e)),
)

not_split : {E : Type 0} (b : Bool) (e : E) → (if not b then err e else ok tt) ≡ ok tt → b ≡ true
not_split true e h = refl
not_split false e h = cc

pub Unit_eta : (u : Unit {0}) → u ≡ tt
Unit_eta u = refl

-- The checks accept exactly the host names.
pub validate_host_iff : (h : Bytes) → (validate_host h ≡ ok tt) ↔ IsHost h
unfolding validate_host
validate_host_iff h = (accepted, complete)
  where
    accepted :
        (if is_empty h || ltb 253 (length h)
            then err HostError.bad_length
            else if contains h (codes "..")
            then err HostError.empty_label
            else do
              _ ← check_labels (split dot h)
              if not (contains h (codes ".")) then err HostError.needs_two_labels else ok tt)
          ≡ ok tt
        → IsHost h
    accepted e =
        let (fits, e₂) = guard_passes (is_empty h || ltb 253 (length h)) _ _ e in
        let (single, e₃) = guard_passes (contains h (codes "..")) _ _ e₂ in
        let (u, checked, e₄) = >>=-eq-ok (check_labels (split dot h)) _ e₃ in
        record {
          short = ground arith;
          labels = check_labels→All (split dot h) (checked ∙ ap ok (Unit_eta u));
          two = (length-two h).1 (not_split (contains h (codes ".")) _ e₄);
        }

    complete : IsHost h → validate_host h ≡ ok tt
    complete v =
        let fits : (is_empty h || ltb 253 (length h)) ≡ false = fits_lem h v in
        rw fits (
          rw (contains-two_dots h (All-tail (split dot h) v.labels))
            (rw (All→check_labels (split dot h) v.labels) (rw ((length-two h).0 v.two))))
      where
        fits_lem : (h : Bytes) → IsHost h → (is_empty h || ltb 253 (length h)) ≡ false
        fits_lem [] v = absurd (let n : 2 ≤ 1 = unfold split in v.two in omega arith)
        fits_lem (c ∷ h) v = ground (arith, v.short)
