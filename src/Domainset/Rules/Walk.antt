-- ===== src/Domainset/Rules/Walk.antt =====
-- `suffixHit` of shared/domainset/domainset.go, against a description with no loop in it.
use smart_dns_proxy.Prelude.{
  ℕ, zero, suc, ◌<◌, ◌≡◌, refl, ap, ◌∙◌, ◌↔◌, inl, inr, Bool, true, ◌||◌, arith, Bool-cases,
  Option-cases, nat_eq, length, Bytes, bytes_eq,
}
use smart_dns_proxy.Strings.{after_byte, dot}
use smart_dns_proxy.Strings.Laws.{
  IsLabelSuffix, after_byte-lt, dot_hits, dot_hits-none, dot_hits-some, dot_hits_sound,
  dot_hits_complete,
}
use smart_dns_proxy.Domainset.Rules.{suffix_hit_loop, suffix_hit}

-- With enough fuel the loop tries the host and what stands behind each of its dots.
pub suffix_hit_loop_lem :
    (fuel : ℕ) (set : Bytes → Bool) (host : Bytes)
    → length host < fuel
    → suffix_hit_loop fuel set host ≡ (set host || dot_hits set host)
unfolding suffix_hit_loop
suffix_hit_loop_lem zero set host h = absurd (omega arith)
suffix_hit_loop_lem (suc fuel) set host h = elim (Bool-cases (set host)) [
  | inl hit ↦ ground arith
  | inr miss ↦ elim (Option-cases (after_byte dot host)) [
    | inl last ↦ ground (arith, dot_hits-none set host last)
    | inr (rest, more) ↦ ground (
      arith,
      suffix_hit_loop_lem fuel set rest (omega (arith, after_byte-lt dot host rest more)),
      dot_hits-some set host rest more,
    )
  ]
]

-- The walk hits exactly when the set holds the host or a part of it that begins behind a dot.
pub suffix_hit_iff :
    (set : Bytes → Bool) (host : Bytes)
    → (suffix_hit set host ≡ true) ↔ ((s : Bytes) × IsLabelSuffix s host × (set s ≡ true))
unfolding suffix_hit
suffix_hit_iff set host = (sound, complete)
  where
    walk : suffix_hit_loop (suc (length host)) set host ≡ (set host || dot_hits set host)
    walk = suffix_hit_loop_lem (suc (length host)) set host (omega arith)

    sound :
        suffix_hit_loop (suc (length host)) set host ≡ true
        → (s : Bytes) × IsLabelSuffix s host × (set s ≡ true)
    sound e = elim (Bool-cases (set host)) [
      | inl hit ↦ (host, inl refl, hit)
      | inr miss ↦ let (s, b, t) = dot_hits_sound set host (ground (arith, walk)) in (s, inr b, t)
    ]

    complete :
        (s : Bytes) × IsLabelSuffix s host × (set s ≡ true)
        → suffix_hit_loop (suc (length host)) set host ≡ true
    complete (s, inl same, t) = walk ∙ ground (arith, ap set same)
    complete (s, inr (p, q), t) =
        walk ∙ ground (arith, ap (dot_hits set) q, dot_hits_complete set p s t)
