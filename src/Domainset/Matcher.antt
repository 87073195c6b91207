-- ===== src/Domainset/Matcher.antt =====
-- shared/domainset/matcher.go: the compiled matcher. A `nil` matcher is `none`.
pub mod Laws
pub mod Depth
use smart_dns_proxy.Prelude.{
  ℕ, zero, suc, ◌+◌, ◌-◌, ◌*◌, ◌/◌, ◌%◌, ◌^◌, ◌≤◌, ◌<◌, ◌≡◌, refl, sym, ap, ◌∙◌, ◌≢◌, ◌↔◌, ◌⊎◌, inl,
  inr, Bool, true, false, not, ◌&&◌, ◌||◌, Option, none, some, List, [], ◌∷◌, ◌++◌, map, arith, ltb,
  leb, ◌==◌, if◌then◌else◌, ltb→lt, ltb→le, lt→ltb, leb→le, leb→lt, ==_iff, tests, Bool-cases,
  Option-cases, eq_of_iff, is_some, Eq, nat_eq, beq_refl, length, is_empty, get_or, take, drop,
  keep, any, all, length-append, take-append-drop, take-append, drop-append, length-take,
  length-drop, length-keep-le, All, All-append, All-keep, elem, nodup, elem-append, elem-keep,
  All-elem, elem-All, Bytes, codes, bytes_beq, bytes_beq_refl, bytes_beq_iff, bytes_eq, bytes_lt,
  bytes_lt_irrefl, bytes_lt_asymm, bytes_lt_trans, bytes_lt_total, Result, ok, err, ◌>>=◌, or_else,
  >>=-eq-ok,
}
use smart_dns_proxy.Prelude.Int.{ℤ, pos, negsuc, sub_ℕ}
use smart_dns_proxy.Platform.{Platform}
use smart_dns_proxy.Strings.{after_byte, dot}
use smart_dns_proxy.Domainset.{Kind, exact, suffix, regex, Entry}

pub record Set : Type 0 where
  pub exact_names : List Bytes
  pub suffixes : List Bytes
  pub patterns : List Bytes

abbrev pub empty_set : Set
empty_set = record { exact_names = []; suffixes = []; patterns = [] }

-- the `switch` of `NewSet`
abbrev put : Kind → Bytes → Set → Set
put exact v s = record s { exact_names = s.exact_names ++ v ∷ [] }
put suffix v s = record s { suffixes = s.suffixes ++ v ∷ [] }
put regex v s = record s { patterns = s.patterns ++ v ∷ [] }

unfoldable pub new_set_loop : List Entry → Set → Set
new_set_loop [] s = s
new_set_loop (x ∷ xs) s = new_set_loop xs (put x.kind x.value s)

unfoldable pub new_set : List Entry → Set
unfolding new_set_loop
new_set es = new_set_loop es empty_set

-- The compiled patterns are named by their sources.
pub record Matcher : Type 0 where
  pub exact_names : List Bytes
  pub suffixes : List Bytes
  pub patterns : List Bytes

-- Patterns that do not compile are skipped.
unfoldable pub compile : Platform → Set → Matcher
compile pl s = record {
  exact_names = s.exact_names;
  suffixes = s.suffixes;
  patterns = keep pl.regex_compiles s.patterns;
}

-- The loop of `Match` over the label suffixes of the host.
unfoldable pub match_loop : ℕ → List Bytes → Bytes → Bool
match_loop zero suffixes h = false
match_loop (suc fuel) suffixes h = elim (elem h suffixes) [
  | true ↦ true
  | false ↦ elim (after_byte dot h) [ none ↦ false | some rest ↦ match_loop fuel suffixes rest ]
]

unfoldable pub match : Platform → Option Matcher → Bytes → Bool
unfolding match_loop after_byte
match pl none host = false
match pl (some m) host =
    if is_empty host
    then false
    else if elem host m.exact_names
    then true
    else if match_loop (suc (length host)) m.suffixes host
    then true
    else any (λ p. pl.regex_matches p host) m.patterns

-- The loop of `Specificity`: the depth of the first hit.
unfoldable pub depth_loop : ℕ → List Bytes → Bytes → ℕ → Option ℕ
depth_loop zero suffixes h depth = none
depth_loop (suc fuel) suffixes h depth = elim (elem h suffixes) [
  | true ↦ some depth
  | false ↦ elim (after_byte dot h) [
    | none ↦ none
    | some rest ↦ depth_loop fuel suffixes rest (depth + 1)
  ]
]

-- `100 - depth` at the first hit, then the patterns
unfoldable pub score : Platform → Matcher → Bytes → Option ℕ → ℤ
score pl m host (some depth) = sub_ℕ 100 depth
score pl m host none = if any (λ p. pl.regex_matches p host) m.patterns then pos 1 else negsuc 0

unfoldable pub specificity : Platform → Option Matcher → Bytes → ℤ
unfolding depth_loop after_byte score
specificity pl none host = negsuc 0
specificity pl (some m) host =
    if is_empty host
    then negsuc 0
    else if elem host m.exact_names
    then pos 1000
    else score pl m host (depth_loop (suc (length host)) m.suffixes host 0)

-- the number of keys of a Go map that got these keys
unfoldable pub distinct : List Bytes → ℕ
distinct [] = 0
distinct (x ∷ xs) = if elem x xs then distinct xs else suc (distinct xs)

unfoldable pub size : Option Matcher → ℕ
unfolding distinct
size none = 0
size (some m) = distinct m.exact_names + distinct m.suffixes + length m.patterns
