-- ===== src/Domainset/Rules/Merge.antt =====
-- `Merge` and `Diff` of shared/domainset/domainset.go, as sets of rules.
use smart_dns_proxy.Prelude.{
  ◌≡◌, refl, sym, ap, ◌∙◌, inl, inr, true, false, not, ◌&&◌, ◌||◌, List, [], ◌∷◌, ◌++◌, arith,
  if◌then◌else◌, Bool-cases, nat_eq, elem, nodup, elem-append, bytes_eq,
}
use smart_dns_proxy.Prelude.Sort.{elem-sort, nodup-sort, sort-IsSorted, IsSorted}
use smart_dns_proxy.Domainset.{Entry, entry_beq, entry_beq_iff, entry_eq, entry_lt, entry_lt_asymm}
use smart_dns_proxy.Domainset.Rules.{
  sort_entries, is_excluded, merge_loop, merge, missing_from, diff,
}

merge_loop-elem :
    (x : Entry) (excludes includes out : List Entry)
    → elem x (merge_loop excludes includes out)
      ≡ (elem x out || (elem x includes && not (is_excluded excludes x)))
unfolding merge_loop
merge_loop-elem x excludes [] out = ground arith
merge_loop-elem x excludes (y ∷ includes) out =
    let out' = if elem y out then out else if is_excluded excludes y then out else out ++ y ∷ [] in
    let rest = merge_loop-elem x excludes includes out' in
    let tail = elem-append x out (y ∷ []) in
    elim (Bool-cases (entry_beq x y)) [
      | inl same ↦
          let q : x ≡ y = (entry_beq_iff x y).0 same in
          ground (arith, rest, tail, ap (λ z. elem z out) q, ap (is_excluded excludes) q)
      | inr other ↦ ground (arith, rest, tail)
    ]

-- A rule is in the result exactly if it was included, was not excluded, and is no exact name that an
-- excluded suffix covers.
pub merge-elem :
    (x : Entry) (includes excludes : List Entry)
    → elem x (merge includes excludes) ≡ (elem x includes && not (is_excluded excludes x))
unfolding merge sort_entries
merge-elem x includes excludes =
    elem-sort entry_lt x (merge_loop excludes includes []) ∙ merge_loop-elem x excludes includes []

missing_from-elem :
    (x : Entry) (xs other : List Entry)
    → elem x (missing_from xs other) ≡ (elem x xs && not (elem x other))
unfolding missing_from
missing_from-elem x [] other = refl
missing_from-elem x (y ∷ xs) other = elim (Bool-cases (entry_beq x y)) [
  | inl same ↦
      let q : x ≡ y = (entry_beq_iff x y).0 same in
      ground (arith, missing_from-elem x xs other, ap (λ z. elem z other) q)
  | inr distinct ↦ ground (arith, missing_from-elem x xs other)
]

-- `Diff` accounts for the change: the new list holds exactly the old rules that were not removed,
-- and the added ones; what was added is new, and what was removed is gone.
pub diff-elem :
    (x : Entry) (old new : List Entry)
    → (elem x new ≡ ((elem x old && not (elem x (diff old new).1)) || elem x (diff old new).0))
      × (elem x (diff old new).0 ≡ (elem x new && not (elem x old)))
      × (elem x (diff old new).1 ≡ (elem x old && not (elem x new)))
unfolding diff sort_entries
diff-elem x old new =
    let added = elem-sort entry_lt x (missing_from new old) ∙ missing_from-elem x new old in
    let removed = elem-sort entry_lt x (missing_from old new) ∙ missing_from-elem x old new in
    (ground (arith, added, removed), added, removed)

merge_loop-nodup :
    (excludes includes out : List Entry)
    → nodup out ≡ true
    → nodup (merge_loop excludes includes out) ≡ true
unfolding merge_loop
merge_loop-nodup excludes [] out h = h
merge_loop-nodup excludes (y ∷ includes) out h =
    merge_loop-nodup excludes includes _ (elim (Bool-cases (elem y out)) [
      | inl seen ↦ rw seen h
      | inr fresh ↦ rw fresh (elim (Bool-cases (is_excluded excludes y)) [
        | inl gone ↦ rw gone h
        | inr kept ↦ rw kept (nodup-append y out fresh h)
      ])
    ])
  where
    nodup-append :
        (y : Entry) (out : List Entry)
        → elem y out ≡ false
        → nodup out ≡ true
        → nodup (out ++ y ∷ []) ≡ true
    nodup-append y [] f h = refl
    nodup-append y (z ∷ out) f h =
        let flip : entry_beq z y ≡ false = ne_symm y z (ground arith) in
        ground (arith, nodup-append y out, elem-append z out (y ∷ []), flip)
      where
        ne_symm : (a b : Entry) → entry_beq a b ≡ false → entry_beq b a ≡ false
        ne_symm a b n = elim (Bool-cases (entry_beq b a)) [
          | inl same ↦ cc (n, (entry_beq_iff a b).1 (sym ((entry_beq_iff b a).0 same)))
          | inr other ↦ other
        ]

-- The result is sorted and holds no rule twice.
pub merge-IsSorted :
    (includes excludes : List Entry)
    → IsSorted entry_lt (merge includes excludes) × (nodup (merge includes excludes) ≡ true)
unfolding merge sort_entries
merge-IsSorted includes excludes = (
  sort-IsSorted entry_lt entry_lt_asymm (merge_loop excludes includes []),
  nodup-sort entry_lt (merge_loop excludes includes [])
      ∙ merge_loop-nodup excludes includes [] refl,
)
