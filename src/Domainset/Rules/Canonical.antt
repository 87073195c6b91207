-- ===== src/Domainset/Rules/Canonical.antt =====
-- `Merge` of shared/domainset/domainset.go, on lists that hold the same rules.
use mathlib.Core.Path.{fun_ext}
use smart_dns_proxy.Prelude.{
  ◌≡◌, refl, sym, ap, ◌∙◌, inl, inr, Bool, true, false, ◌&&◌, ◌||◌, List, [], ◌∷◌, arith,
  if◌then◌else◌, Bool-cases, nat_eq, beq_refl, elem, nodup, Bytes, bytes_beq, bytes_beq_iff,
  bytes_eq, bytes_lt, bytes_lt_total,
}
use smart_dns_proxy.Prelude.Sort.{IsSorted}
use smart_dns_proxy.Domainset.{
  Kind, exact, suffix, regex, kind_text, kind_beq, Entry, entry_beq, entry_beq_iff, entry_eq,
  entry_lt, entry_lt_asymm,
}
use smart_dns_proxy.Domainset.Rules.{suffix_values, suffix_hit, is_excluded, merge}
use smart_dns_proxy.Domainset.Rules.Merge.{merge-elem, merge-IsSorted}

bytes_not_lt_trans :
    (s t u : Bytes) → bytes_lt s t ≡ false → bytes_lt t u ≡ false → bytes_lt s u ≡ false
bytes_not_lt_trans [] [] u h k = k
bytes_not_lt_trans [] (y ∷ ys) u h k = cc
bytes_not_lt_trans (x ∷ xs) t [] h k = refl
bytes_not_lt_trans (x ∷ xs) [] (z ∷ zs) h k = cc
bytes_not_lt_trans (x ∷ xs) (y ∷ ys) (z ∷ zs) h k = ground (arith, bytes_not_lt_trans xs ys zs)

abbrev key_lt : Kind → Bytes → Kind → Bytes → Bool
key_lt k v l w = bytes_lt (kind_text k) (kind_text l) || (kind_beq k l && bytes_lt v w)

key_not_lt_trans :
    (k l m : Kind) (u v w : Bytes)
    → key_lt k u l v ≡ false
    → key_lt l v m w ≡ false
    → key_lt k u m w ≡ false
key_not_lt_trans exact exact exact u v w h g = bytes_not_lt_trans u v w h g
key_not_lt_trans suffix suffix suffix u v w h g = bytes_not_lt_trans u v w h g
key_not_lt_trans regex regex regex u v w h g = bytes_not_lt_trans u v w h g
key_not_lt_trans exact exact _ u v w h g = cc
key_not_lt_trans suffix suffix _ u v w h g = cc
key_not_lt_trans regex regex _ u v w h g = cc
key_not_lt_trans regex exact exact u v w h g = refl
key_not_lt_trans regex exact _ u v w h g = cc
key_not_lt_trans suffix exact suffix u v w h g = cc
key_not_lt_trans suffix exact _ u v w h g = refl
key_not_lt_trans suffix regex suffix u v w h g = cc
key_not_lt_trans suffix regex _ u v w h g = refl
key_not_lt_trans _ _ m u v w h g = cc

entry_not_lt_trans :
    (a b c : Entry) → entry_lt a b ≡ false → entry_lt b c ≡ false → entry_lt a c ≡ false
entry_not_lt_trans a b c = key_not_lt_trans a.kind b.kind c.kind a.value b.value c.value

key_lt_total :
    (k l : Kind) (u v : Bytes)
    → key_lt k u l v ≡ false
    → key_lt l v k u ≡ false
    → (kind_beq k l && bytes_beq u v) ≡ true
key_lt_total exact exact u v h g = (bytes_beq_iff u v).1 (bytes_lt_total u v h g)
key_lt_total suffix suffix u v h g = (bytes_beq_iff u v).1 (bytes_lt_total u v h g)
key_lt_total regex regex u v h g = (bytes_beq_iff u v).1 (bytes_lt_total u v h g)
key_lt_total _ _ u v h g = cc

-- Nothing in a sorted list is less than its head.
head-least :
    (x y : Entry) (xs : List Entry)
    → IsSorted entry_lt (x ∷ xs)
    → elem y xs ≡ true
    → entry_lt y x ≡ false
head-least x y [] s m = cc
head-least x y (z ∷ xs) (first, s) m = elim (Bool-cases (entry_beq y z)) [
  | inl same ↦ rw ((entry_beq_iff y z).0 same) first
  | inr other ↦ entry_not_lt_trans y z x (head-least z y xs s (ground arith)) first
]

IsSorted-tail : (x : Entry) (xs : List Entry) → IsSorted entry_lt (x ∷ xs) → IsSorted entry_lt xs
IsSorted-tail x [] s = tt
IsSorted-tail x (y ∷ xs) s = s.1

-- Two sorted lists with no repetition and the same elements are one list.
sorted_unique :
    (xs ys : List Entry)
    → IsSorted entry_lt xs × (nodup xs ≡ true)
    → IsSorted entry_lt ys × (nodup ys ≡ true)
    → ((a : Entry) → elem a xs ≡ elem a ys)
    → xs ≡ ys
sorted_unique [] [] p q same = refl
sorted_unique [] (y ∷ ys) p q same = cc (same y, beq_refl y)
sorted_unique (x ∷ xs) [] p q same = cc (same x, beq_refl x)
sorted_unique (x ∷ xs) (y ∷ ys) (s, n) (t, m) same =
    let heads : x ≡ y = (entry_beq_iff x y).0 (
      key_lt_total x.kind y.kind x.value y.value
        (below y x ys t (sym (same x) ∙ ground (arith, beq_refl x)))
        (below x y xs s (same y ∙ ground (arith, beq_refl y)))) in
    cc (
      heads,
      sorted_unique xs ys (IsSorted-tail x xs s, ground arith) (IsSorted-tail y ys t, ground arith)
          (rest heads),
    )
  where
    irrefl : (u : Entry) → entry_lt u u ≡ false
    irrefl u = elim (Bool-cases (entry_lt u u)) [
      | inl less ↦ entry_lt_asymm u u less
      | inr not_less ↦ not_less
    ]

    below :
        (u v : Entry) (us : List Entry)
        → IsSorted entry_lt (u ∷ us)
        → elem v (u ∷ us) ≡ true
        → entry_lt v u ≡ false
    below u v us s m = elim (Bool-cases (entry_beq v u)) [
      | inl head ↦ rw ((entry_beq_iff v u).0 head) (irrefl u)
      | inr other ↦ head-least u v us s (ground arith)
    ]

    rest : x ≡ y → (a : Entry) → elem a xs ≡ elem a ys
    rest heads a = elim (Bool-cases (entry_beq a x)) [
      | inl head ↦
          let q : a ≡ x = (entry_beq_iff a x).0 head in
          let absent_x : elem a xs ≡ false = rw q (ground arith) in
          let absent_y : elem a ys ≡ false = rw (q ∙ heads) (ground arith) in
          absent_x ∙ sym absent_y
      | inr other ↦ let other' : entry_beq a y ≡ false = rw heads at other in ground (arith, same a)
    ]

pub suffix_values-elem :
    (v : Bytes) (xs : List Entry)
    → elem v (suffix_values xs) ≡ elem (record { kind = suffix; value = v }) xs
unfolding suffix_values
suffix_values-elem v [] = refl
suffix_values-elem v (x ∷ xs) = by_kind x.kind (suffix_values-elem v xs)
  where
    by_kind :
        (k : Kind)
        → elem v (suffix_values xs) ≡ elem (record { kind = suffix; value = v }) xs
        → elem v (if kind_beq k suffix then x.value ∷ suffix_values xs else suffix_values xs) ≡ (
            (kind_beq suffix k && bytes_beq v x.value)
            || elem (record { kind = suffix; value = v }) xs)
    by_kind exact ih = ih
    by_kind regex ih = ih
    by_kind suffix ih = ground arith

abbrev pub SameRules : List Entry → List Entry → Type 0
SameRules xs ys = (a : Entry) → elem a xs ≡ elem a ys

is_excluded_same :
    (xs ys : List Entry) → SameRules xs ys → (a : Entry) → is_excluded xs a ≡ is_excluded ys a
unfolding is_excluded
is_excluded_same xs ys same a =
    let tables : ◌≡◌ {A = Bytes → Bool} (λ v. elem v (suffix_values xs))
        (λ v. elem v (suffix_values ys)) =
      fun_ext (λ v.
        suffix_values-elem v xs
        ∙ same (record { kind = suffix; value = v })
        ∙ sym (suffix_values-elem v ys)) in
    ground (arith, same a, ap (λ set. suffix_hit set a.value) tables)

-- Includes and excludes that hold the same rules, in any order and however often, merge to the same
-- list.
pub merge_canonical :
    (includes includes' excludes excludes' : List Entry)
    → SameRules includes includes'
    → SameRules excludes excludes'
    → merge includes excludes ≡ merge includes' excludes'
merge_canonical includes includes' excludes excludes' p q =
    sorted_unique (merge includes excludes) (merge includes' excludes')
      (merge-IsSorted includes excludes) (merge-IsSorted includes' excludes')
      (λ a. ground (
        arith,
        merge-elem a includes excludes,
        merge-elem a includes' excludes',
        p a,
        is_excluded_same excludes excludes' q a,
      ))
