-- ===== src/Domainset/Parse.antt =====
-- `ParseLines`, `parseOne`, `validateRegex` and `truncate` of shared/domainset/domainset.go.
-- A warning is kept as the text and the error that the code formats.
pub mod Laws
use smart_dns_proxy.Prelude.{
  ℕ, zero, suc, ◌+◌, ◌-◌, ◌*◌, ◌/◌, ◌%◌, ◌^◌, ◌≤◌, ◌<◌, ◌≡◌, refl, sym, ap, ◌∙◌, ◌≢◌, ◌↔◌, ◌⊎◌, inl,
  inr, Bool, true, false, not, ◌&&◌, ◌||◌, Option, none, some, List, [], ◌∷◌, ◌++◌, map, arith, ltb,
  leb, ◌==◌, if◌then◌else◌, ltb→lt, ltb→le, lt→ltb, leb→le, leb→lt, ==_iff, tests, Bool-cases,
  Option-cases, eq_of_iff, is_some, Eq, nat_eq, beq_refl, length, is_empty, get_or, take, drop,
  keep, any, all, length-append, take-append-drop, take-append, drop-append, length-take,
  length-drop, length-keep-le, All, All-append, All-keep, elem, nodup, elem-append, elem-keep,
  All-elem, elem-All, switch, switch-All, Bytes, codes, bytes_beq, bytes_beq_refl, bytes_beq_iff,
  bytes_eq, bytes_lt, bytes_lt_irrefl, bytes_lt_asymm, bytes_lt_trans, bytes_lt_total, Result, ok,
  err, ◌>>=◌, or_else, >>=-eq-ok,
}
use smart_dns_proxy.Platform.{Platform}
use smart_dns_proxy.Strings.{
  to_lower, trim_space, trim_prefix, trim_last, has_prefix, contains_any, after_byte, before_byte,
  split, fields, bom, ellipsis,
}
use smart_dns_proxy.Domainset.{exact, suffix, regex, Kind, Entry, entry_eq}
use smart_dns_proxy.Domainset.Host.{HostError, normalize_host}
use smart_dns_proxy.Domainset.Rules.{sort_entries}

pub data ParseError : Type 0 where
  host_error : HostError → ParseError
  keyword_unsupported regex_disabled regex_length regex_syntax wildcard_unsupported : ParseError

pub record ParseOptions : Type 0 where
  pub allow_regex : Bool
  pub max_entries : ℕ

pub record ParseResult : Type 0 where
  pub entries : List Entry
  pub skipped : ℕ
  pub warnings : List (Bytes × ParseError)

abbrev pub max_regex_len : ℕ
max_regex_len = 256

unfoldable pub validate_regex : Platform → Bytes → Result ParseError Unit
validate_regex pl v =
    if is_empty v || ltb max_regex_len (length v)
    then err regex_length
    else if pl.regex_compiles v
    then ok tt
    else err regex_syntax

-- `NormalizeHost` of the value, as a rule of the kind
unfoldable pub host_rule : Platform → Kind → Bytes → Result ParseError Entry
host_rule pl k v = elim (normalize_host pl v) [
  | ok h ↦ ok (record { kind = k; value = h })
  | err e ↦ err (host_error e)
]

-- `line[strings.Index(line, ":")+1:]`
unfoldable pub after_colon : Bytes → Bytes
unfolding after_byte
after_colon line = elim (after_byte b':' line) [ none ↦ line | some rest ↦ rest ]

-- the case of a pattern
unfoldable pub regex_rule : Platform → Bool → Bytes → Result ParseError Entry
unfolding validate_regex
regex_rule pl allow_regex value = if not allow_regex then err regex_disabled else do
  let v = trim_space pl value
  _ ← validate_regex pl v
  ok (record { kind = regex; value = v })

-- The cases of the `switch`, in order, before the default.
unfoldable pub parse_cases : Platform → Bool → Bytes → List (Bool × Result ParseError Entry)
unfolding has_prefix contains_any after_colon host_rule regex_rule
parse_cases pl allow_regex line =
    let lower = to_lower pl line in
    let value = after_colon line in
    (
      has_prefix lower (codes "domain-suffix:") || has_prefix lower (codes "suffix:"),
      host_rule pl suffix value,
    )
    ∷ (
      has_prefix lower (codes "domain-keyword:") || has_prefix lower (codes "keyword:"),
      err keyword_unsupported,
    )
    ∷ (
      has_prefix lower (codes "domain-regex:")
          || has_prefix lower (codes "regexp:")
          || has_prefix lower (codes "regex:"),
      regex_rule pl allow_regex value,
    )
    ∷ (
      has_prefix lower (codes "full:") || has_prefix lower (codes "domain-full:"),
      host_rule pl exact value,
    )
    ∷ (has_prefix lower (codes "domain:"), host_rule pl suffix (drop 7 line))
    ∷ (has_prefix line (codes "*."), host_rule pl suffix (drop 2 line))
    ∷ (has_prefix line (codes "."), host_rule pl suffix (drop 1 line))
    ∷ (has_prefix line (codes "+."), host_rule pl suffix (drop 2 line))
    ∷ (contains_any line (codes "*?/"), err wildcard_unsupported)
    ∷ []

unfoldable pub parse_one : Platform → Bool → Bytes → Result ParseError Entry
unfolding parse_cases
parse_one pl allow_regex line = switch (parse_cases pl allow_regex line) (host_rule pl exact line)

-- The hosts-file form names its address first.
unfoldable pub host_field : List Bytes → Bytes → Bytes
host_field (a ∷ b ∷ []) line =
    if bytes_beq a (codes "0.0.0.0") || bytes_beq a (codes "127.0.0.1") || bytes_beq a (codes "::")
    then b
    else line
host_field _ line = line

-- A line as it goes to `parseOne`; `none` is `continue`.
unfoldable pub clean_line : Platform → Bytes → Option Bytes
unfolding trim_prefix trim_last has_prefix before_byte host_field
clean_line pl raw =
    let line = trim_prefix (trim_space pl (trim_last 13 raw)) bom in
    if is_empty line
      || has_prefix line (codes "#")
      || has_prefix line (codes "!")
      || has_prefix line (codes "//")
    then none
    else if elem b'#' line
    then (let cut = trim_space pl (before_byte b'#' line) in
        if is_empty cut then none else some (host_field (fields pl cut) cut))
    else some (host_field (fields pl line) line)

unfoldable pub truncate : Bytes → ℕ → Bytes
truncate s n = if leb (length s) n then s else take n s ++ ellipsis

-- The variables of the loop: the result, and the rules seen.
pub record Progress : Type 0 where
  pub result : ParseResult
  pub seen : List Entry

-- A line that `parseOne` refused; the first fifty leave a warning.
unfoldable pub skip_line : Bytes → ParseError → ParseResult → ParseResult
unfolding truncate
skip_line line e r = record r {
  skipped = r.skipped + 1;
  warnings =
      if ltb (length r.warnings) 50 then r.warnings ++ (truncate line 80, e) ∷ [] else r.warnings;
}

-- A rule that was parsed. `true` means that the limit is exceeded.
unfoldable pub accept : ℕ → Entry → Progress → Progress × Bool
accept max x p = if elem x p.seen then (p, false) else (
  record { result = record (p.result) { entries = p.result.entries ++ x ∷ [] }; seen = x ∷ p.seen },
  ltb max (length (p.result.entries ++ x ∷ [])),
)

unfoldable pub parse_line : Platform → Bool → ℕ → Bytes → Progress → Progress × Bool
unfolding skip_line accept
parse_line pl allow_regex max raw p = elim (clean_line pl raw) [
  | none ↦ (p, false)
  | some line ↦ elim (parse_one pl allow_regex line) [
    | err e ↦ (record p { result = skip_line line e p.result }, false)
    | ok x ↦ accept max x p
  ]
]

unfoldable pub parse_loop : Platform → Bool → ℕ → List Bytes → Progress → Progress × Bool
unfolding parse_line
parse_loop pl allow_regex max [] p = (p, false)
parse_loop pl allow_regex max (raw ∷ lines) p =
    let (q, exceeded) = parse_line pl allow_regex max raw p in
    elim exceeded [ true ↦ (q, true) | false ↦ parse_loop pl allow_regex max lines q ]

abbrev pub no_progress : Progress
no_progress = record { result = record { entries = []; skipped = 0; warnings = [] }; seen = [] }

abbrev pub entry_limit : ℕ → ℕ
entry_limit max = if max == 0 then 1000000 else max

-- The result, and whether the error "entry limit exceeded" came with it, its rules not yet sorted.
unfoldable pub parse_lines : Platform → ParseOptions → Bytes → ParseResult × Bool
unfolding parse_loop sort_entries split
parse_lines pl opt body =
    let (p, exceeded) =
      parse_loop pl opt.allow_regex (entry_limit opt.max_entries) (split 10 body) no_progress in
    (
      if exceeded then p.result else record (p.result) { entries = sort_entries p.result.entries },
      exceeded,
    )
