-- ===== src/Domainset/Matcher/Depth.antt =====
-- `Specificity` of shared/domainset/matcher.go, against `Match`.
use smart_dns_proxy.Prelude.{
  ℕ, zero, suc, ◌+◌, ◌≤◌, ◌<◌, ◌≡◌, refl, ap, inl, inr, Bool, true, false, not, none, some, List,
  [], ◌∷◌, ◌++◌, arith, ◌==◌, Bool-cases, Option-cases, is_some, nat_eq, length, length-append,
  elem, Bytes, bytes_beq, bytes_beq_refl, bytes_beq_iff, bytes_eq,
}
use smart_dns_proxy.Prelude.Int.{ℤ, pos, negsuc, ltz}
use smart_dns_proxy.Platform.{Platform}
use smart_dns_proxy.Strings.{after_byte, dot}
use smart_dns_proxy.Strings.Laws.{dots, dots-some, after_byte-lt}
use smart_dns_proxy.Domainset.Matcher.{Matcher, match_loop, match, depth_loop, score, specificity}

-- Both loops hit together, and the depth of a hit is at most the number of dots passed.
depth_loop_lem :
    (fuel : ℕ) (suffixes : List Bytes) (h : Bytes) (depth : ℕ)
    → length h < fuel
    → (is_some (depth_loop fuel suffixes h depth) ≡ match_loop fuel suffixes h)
      × ((d : ℕ) → depth_loop fuel suffixes h depth ≡ some d → (depth ≤ d) × (d ≤ depth + dots h))
unfolding depth_loop match_loop
depth_loop_lem zero suffixes h depth fuel_left = absurd (omega arith)
depth_loop_lem (suc fuel) suffixes h depth fuel_left = elim (Bool-cases (elem h suffixes)) [
  | inl hit ↦ (ground arith, λ d e. ground arith)
  | inr miss ↦ elim (Option-cases (after_byte dot h)) [
    | inl last ↦ (ground arith, λ d e. ground arith)
    | inr (rest, more) ↦
        let (same, bound) =
          depth_loop_lem fuel suffixes rest (depth + 1)
            (omega (arith, after_byte-lt dot h rest more)) in
        (ground arith, λ d e. ground (arith, bound d, dots-some h rest more))
  ]
]

abbrev pub is_negative : ℤ → Bool
is_negative (pos n) = false
is_negative (negsuc n) = true

-- On a host of at most 101 labels the specificity is negative exactly if the host does not match.
pub specificity-match :
    (pl : Platform) (m : Matcher) (host : Bytes)
    → dots host ≤ 100
    → is_negative (specificity pl (some m) host) ≡ not (match pl (some m) host)
unfolding specificity match score
specificity-match pl m host few =
    let (same, bound) = depth_loop_lem (suc (length host)) m.suffixes host 0 (omega arith) in
    elim (Option-cases (depth_loop (suc (length host)) m.suffixes host 0)) [
      | inl miss ↦ ground arith
      | inr (d, hit) ↦ ground (arith, bound d)
    ]

after_byte-append_some :
    (p s r : Bytes)
    → after_byte dot p ≡ some r
    → after_byte dot (p ++ dot ∷ s) ≡ some (r ++ dot ∷ s)
unfolding after_byte
after_byte-append_some [] s r e = cc
after_byte-append_some (x ∷ p) s r e = elim (Bool-cases (x == dot)) [
  | inl at ↦ let q : p ≡ r = ground arith in rw at (rw q refl)
  | inr off ↦ rw off (after_byte-append_some p s r (rw off at e))
]

after_byte-append_none :
    (p s : Bytes)
    → after_byte dot p ≡ none
    → (after_byte dot (p ++ dot ∷ s) ≡ some s) × (dots p ≡ 0)
unfolding after_byte dots
after_byte-append_none [] s e = (refl, refl)
after_byte-append_none (x ∷ p) s e = ground (arith, after_byte-append_none p s)

longer_ne : (p s : Bytes) → bytes_beq (p ++ dot ∷ s) s ≡ false
longer_ne p s = elim (Bool-cases (bytes_beq (p ++ dot ∷ s) s)) [
  | inl same ↦ absurd (
      omega (arith, ap length ((bytes_beq_iff (p ++ dot ∷ s) s).0 same), length-append p (dot ∷ s)))
  | inr other ↦ other
]

-- the only suffix `s` is hit behind all the dots before it
depth_loop-deep :
    (fuel : ℕ) (p s : Bytes) (depth : ℕ)
    → length (p ++ dot ∷ s) < fuel
    → depth_loop fuel (s ∷ []) (p ++ dot ∷ s) depth ≡ some (depth + dots p + 1)
unfolding depth_loop
depth_loop-deep zero p s depth h = absurd (omega arith)
depth_loop-deep (suc zero) p s depth h = absurd (omega (arith, length-append p (dot ∷ s)))
depth_loop-deep (suc (suc fuel)) p s depth h = elim (Option-cases (after_byte dot p)) [
  | inl last ↦
      let (at, none_left) = after_byte-append_none p s last in
      ground (arith, longer_ne p s, bytes_beq_refl s)
  | inr (r, more) ↦
      let at = after_byte-append_some p s r more in
      let fewer : length (r ++ dot ∷ s) < suc fuel =
        omega (arith, after_byte-lt dot (p ++ dot ∷ s) (r ++ dot ∷ s) at) in
      let rest = depth_loop-deep (suc fuel) r s (depth + 1) fewer in
      ground (arith, longer_ne p s, dots-some p r more, rest)
]

abbrev pub only_suffix : Bytes → Matcher
only_suffix s = record { exact_names = []; suffixes = s ∷ []; patterns = [] }

-- With the suffix rule `s` and no other rule, a host 101 labels or more below `s` matches, and has a
-- negative specificity, as if it did not match.
pub specificity-deep :
    (pl : Platform) (p s : Bytes)
    → 100 ≤ dots p
    → (match pl (some (only_suffix s)) (p ++ dot ∷ s) ≡ true)
      × (is_negative (specificity pl (some (only_suffix s)) (p ++ dot ∷ s)) ≡ true)
unfolding specificity match score
specificity-deep pl [] s deep = absurd (unfold dots in omega arith)
specificity-deep pl (x ∷ p) s deep =
    let host = x ∷ p ++ dot ∷ s in
    let hit = depth_loop-deep (suc (length host)) (x ∷ p) s 0 (omega arith) in
    let (same, bound) = depth_loop_lem (suc (length host)) (s ∷ []) host 0 (omega arith) in
    (ground arith, ground arith)

-- A specificity that is not negative is that of a match, however deep the host.
pub specificity_sound :
    (pl : Platform) (m : Matcher) (host : Bytes)
    → ltz (specificity pl (some m) host) (pos 0) ≡ false
    → match pl (some m) host ≡ true
unfolding specificity match score
specificity_sound pl m host h =
    let (same, bound) = depth_loop_lem (suc (length host)) m.suffixes host 0 (omega arith) in
    elim (Option-cases (depth_loop (suc (length host)) m.suffixes host 0)) [
      | inl miss ↦ ground arith
      | inr (d, hit) ↦ ground arith
    ]
