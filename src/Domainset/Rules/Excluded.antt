-- ===== src/Domainset/Rules/Excluded.antt =====
-- `Merge` of shared/domainset/domainset.go: what it removes, without the maps and loops.
use smart_dns_proxy.Prelude.{
  ◌≡◌, refl, sym, ◌∙◌, ◌↔◌, ◌⊎◌, inl, inr, Bool, true, ◌&&◌, ◌||◌, List, arith, Bool-cases, nat_eq,
  elem, Bytes, bytes_eq,
}
use smart_dns_proxy.Strings.Laws.{IsLabelSuffix}
use smart_dns_proxy.Domainset.{Kind, exact, suffix, regex, kind_beq, Entry, entry_eq}
use smart_dns_proxy.Domainset.Rules.{merge, is_excluded, suffix_values, suffix_hit}
use smart_dns_proxy.Domainset.Rules.Walk.{suffix_hit_iff}
use smart_dns_proxy.Domainset.Rules.Merge.{merge-elem}
use smart_dns_proxy.Domainset.Rules.Canonical.{suffix_values-elem}

-- The rule itself is excluded, or it is an exact name at or beneath an excluded suffix.
abbrev pub Removed : List Entry → Entry → Type 0
Removed excludes x =
    (elem x excludes ≡ true)
    ⊎ ((x.kind ≡ exact)
        × ((s : Bytes) × IsLabelSuffix s x.value
            × (elem (record { kind = suffix; value = s }) excludes ≡ true)))

kind_beq-exact : (k : Kind) → kind_beq k exact ≡ true → k ≡ exact
kind_beq-exact exact h = refl
kind_beq-exact suffix h = cc
kind_beq-exact regex h = cc

is_excluded_iff :
    (excludes : List Entry) (x : Entry) → (is_excluded excludes x ≡ true) ↔ Removed excludes x
unfolding is_excluded
is_excluded_iff excludes x = (removed, excluded)
  where
    set : Bytes → Bool
    set v = elem v (suffix_values excludes)

    removed :
        (elem x excludes || (kind_beq x.kind exact && suffix_hit set x.value)) ≡ true
        → Removed excludes x
    removed h = elim (Bool-cases (elem x excludes)) [
      | inl listed ↦ inl listed
      | inr unlisted ↦
          let (s, beneath, m) = (suffix_hit_iff set x.value).0 (ground arith) in
          inr (
            kind_beq-exact x.kind (ground arith),
            (s, beneath, sym (suffix_values-elem s excludes) ∙ m),
          )
    ]

    excluded :
        Removed excludes x
        → (elem x excludes || (kind_beq x.kind exact && suffix_hit set x.value)) ≡ true
    excluded (inl listed) = ground arith
    excluded (inr (k, (s, beneath, m))) =
        let hit = (suffix_hit_iff set x.value).1 (s, beneath, suffix_values-elem s excludes ∙ m) in
        let kind : kind_beq x.kind exact ≡ true = rw k refl in ground arith

-- A rule is in the result exactly if it was included, was not itself excluded, and is no exact name
-- at or beneath an excluded suffix.
pub merge_iff :
    (x : Entry) (includes excludes : List Entry)
    → (elem x (merge includes excludes) ≡ true)
      ↔ ((elem x includes ≡ true) × (Removed excludes x → ⊥))
merge_iff x includes excludes = (kept, held)
  where
    kept :
        elem x (merge includes excludes) ≡ true
        → (elem x includes ≡ true) × (Removed excludes x → ⊥)
    kept h =
        let both = sym (merge-elem x includes excludes) ∙ h in
        (ground arith, λ r. let e = (is_excluded_iff excludes x).1 r in ground arith)

    held :
        (elem x includes ≡ true) × (Removed excludes x → ⊥)
        → elem x (merge includes excludes) ≡ true
    held (inc, free) = elim (Bool-cases (is_excluded excludes x)) [
      | inl e ↦ absurd (free ((is_excluded_iff excludes x).0 e))
      | inr e ↦ merge-elem x includes excludes ∙ ground arith
    ]
