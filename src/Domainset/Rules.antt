-- ===== src/Domainset/Rules.antt =====
-- `Sort`, `Merge`, `suffixHit`, `Counts` and `Diff` of shared/domainset/domainset.go.
-- A Go set `map[K]bool` is the list of the keys that were put in.
pub mod Walk
pub mod Merge
pub mod Canonical
pub mod Excluded
use smart_dns_proxy.Prelude.{
  ℕ, zero, suc, ◌+◌, ◌-◌, ◌*◌, ◌/◌, ◌%◌, ◌^◌, ◌≤◌, ◌<◌, ◌≡◌, refl, sym, ap, ◌∙◌, ◌≢◌, ◌↔◌, ◌⊎◌, inl,
  inr, Bool, true, false, not, ◌&&◌, ◌||◌, Option, none, some, List, [], ◌∷◌, ◌++◌, map, arith, ltb,
  leb, ◌==◌, if◌then◌else◌, ltb→lt, ltb→le, lt→ltb, leb→le, leb→lt, ==_iff, tests, Bool-cases,
  Option-cases, eq_of_iff, is_some, Eq, nat_eq, beq_refl, length, is_empty, get_or, take, drop,
  keep, any, all, length-append, take-append-drop, take-append, drop-append, length-take,
  length-drop, length-keep-le, All, All-append, All-keep, elem, nodup, elem-append, elem-keep,
  All-elem, elem-All, Bytes, codes, bytes_beq, bytes_beq_refl, bytes_beq_iff, bytes_eq, bytes_lt,
  bytes_lt_irrefl, bytes_lt_asymm, bytes_lt_trans, bytes_lt_total, Result, ok, err, ◌>>=◌, or_else,
  >>=-eq-ok,
}
use smart_dns_proxy.Prelude.Sort
use smart_dns_proxy.Strings.{after_byte, dot}
use smart_dns_proxy.Domainset.{Kind, exact, suffix, regex, kind_beq, Entry, entry_eq, entry_lt}

unfoldable pub sort_entries : List Entry → List Entry
sort_entries = Sort.sort entry_lt

-- One round drops the first label. The fuel is one more than the host's length.
unfoldable pub suffix_hit_loop : ℕ → (Bytes → Bool) → Bytes → Bool
suffix_hit_loop zero set host = false
suffix_hit_loop (suc fuel) set host = elim (set host) [
  | true ↦ true
  | false ↦ elim (after_byte dot host) [ none ↦ false | some rest ↦ suffix_hit_loop fuel set rest ]
]

unfoldable pub suffix_hit : (Bytes → Bool) → Bytes → Bool
unfolding suffix_hit_loop after_byte
suffix_hit set host = suffix_hit_loop (suc (length host)) set host

-- `exSuffix`: the values of the excluded suffix rules
unfoldable pub suffix_values : List Entry → List Bytes
suffix_values [] = []
suffix_values (x ∷ xs) =
    if kind_beq x.kind suffix then x.value ∷ suffix_values xs else suffix_values xs

-- whether the second loop of `Merge` passes over a rule that it has not seen
unfoldable pub is_excluded : List Entry → Entry → Bool
unfolding suffix_values suffix_hit
is_excluded excludes x =
    elem x excludes
    || (kind_beq x.kind exact && suffix_hit (λ v. elem v (suffix_values excludes)) x.value)

-- The loop over the includes; `out` holds what was seen, in order.
unfoldable pub merge_loop : List Entry → List Entry → List Entry → List Entry
unfolding is_excluded
merge_loop excludes [] out = out
merge_loop excludes (x ∷ includes) out =
    merge_loop excludes includes
      (if elem x out then out else if is_excluded excludes x then out else out ++ x ∷ [])

unfoldable pub merge : List Entry → List Entry → List Entry
unfolding merge_loop sort_entries
merge includes excludes = sort_entries (merge_loop excludes includes [])

pub record Counts : Type 0 where
  pub exact_count : ℕ
  pub suffix_count : ℕ
  pub regex_count : ℕ
  pub total : ℕ

abbrev count_one : Kind → Counts → Counts
count_one exact c = record c { exact_count = c.exact_count + 1 }
count_one suffix c = record c { suffix_count = c.suffix_count + 1 }
count_one regex c = record c { regex_count = c.regex_count + 1 }

unfoldable pub counts_loop : List Entry → Counts → Counts
counts_loop [] c = c
counts_loop (x ∷ xs) c = counts_loop xs (count_one x.kind c)

unfoldable pub counts : List Entry → Counts
unfolding counts_loop
counts es =
    counts_loop es
      (record { exact_count = 0; suffix_count = 0; regex_count = 0; total = length es })

-- The rules of the first list that the second lacks: each of the two loops of `Diff`.
unfoldable pub missing_from : List Entry → List Entry → List Entry
missing_from [] other = []
missing_from (x ∷ xs) other =
    if elem x other then missing_from xs other else x ∷ missing_from xs other

-- What was added and what was removed.
unfoldable pub diff : List Entry → List Entry → List Entry × List Entry
unfolding missing_from sort_entries
diff old new = (sort_entries (missing_from new old), sort_entries (missing_from old new))
