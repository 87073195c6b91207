-- ===== src/Domainset/Parse/Laws.antt =====
-- `ParseLines` of shared/domainset/domainset.go: the rules that it returns.
use smart_dns_proxy.Prelude.{
  ℕ, ◌≤◌, ◌≡◌, refl, sym, ◌∙◌, inl, inr, Bool, true, false, not, Option, none, some, List, [], ◌∷◌,
  ◌++◌, arith, ltb, if◌then◌else◌, ltb→le, Bool-cases, eq_of_iff, nat_eq, length, All, All-append,
  elem, nodup, elem-append, switch-All, Bytes, bytes_eq, Result, ok, err, ◌>>=◌,
}
use smart_dns_proxy.Prelude.Sort.{IsSorted, sort-IsSorted, All-sort, nodup-sort, length-sort}
use smart_dns_proxy.Platform.{Platform}
use smart_dns_proxy.Strings.{split, trim_space}
use smart_dns_proxy.Domainset.{
  exact, suffix, regex, Kind, Entry, entry_beq, entry_beq_iff, entry_eq, entry_lt, entry_lt_asymm,
}
use smart_dns_proxy.Domainset.Host.{HostError, normalize_host}
use smart_dns_proxy.Domainset.Host.Laws.{IsHost}
use smart_dns_proxy.Domainset.Host.Normal.{normalize_host-IsHost}
use smart_dns_proxy.Domainset.Rules.{sort_entries}
use smart_dns_proxy.Domainset.Parse.{
  ParseResult, ParseError, ParseOptions, Progress, host_rule, validate_regex, regex_rule,
  parse_cases, parse_one, clean_line, skip_line, accept, parse_line, parse_loop, no_progress,
  entry_limit, parse_lines,
}

-- The value of a rule: a host name, or a pattern of 1 to 256 bytes that compiles, if patterns are
-- allowed.
abbrev pub IsValue : Platform → Bool → Kind → Bytes → Type 0
IsValue pl allow exact v = IsHost v
IsValue pl allow suffix v = IsHost v
IsValue pl allow regex v =
    (allow ≡ true) × (1 ≤ length v) × (length v ≤ 256) × (pl.regex_compiles v ≡ true)

abbrev pub IsRule : Platform → Bool → Entry → Type 0
IsRule pl allow x = IsValue pl allow x.kind x.value

-- The line was refused, or it is a rule.
abbrev IsGood : Platform → Bool → Result ParseError Entry → Type 0
IsGood pl allow (ok x) = IsRule pl allow x
IsGood pl allow (err e) = Unit

module _ (pl : Platform) (allow : Bool) where
  -- Of the two kinds of host rule alike.
  module _ (k : Kind) (host_kind : (v : Bytes) → IsHost v → IsValue pl allow k v) where
    host_rule-IsGood : (v : Bytes) → IsGood pl allow (host_rule pl k v)
    unfolding host_rule
    host_rule-IsGood v = by_result (normalize_host pl v) refl
      where
        by_result :
            (r : Result HostError Bytes)
            → normalize_host pl v ≡ r
            → IsGood pl allow (elim r [
              | ok h ↦ ok (record { kind = k; value = h })
              | err e ↦ err (ParseError.host_error e)
            ])
        by_result (ok h) e = host_kind h (normalize_host-IsHost pl v h e)
        by_result (err x) e = tt

  regex-IsGood :
      (v : Bytes)
      → allow ≡ true
      → IsGood pl allow (validate_regex pl v >>= λ _. ok (record { kind = regex; value = v }))
  unfolding validate_regex
  regex-IsGood [] h = tt
  regex-IsGood (c ∷ v) h = elim (Bool-cases (ltb 256 (length (c ∷ v)))) [
    | inl long ↦ rw long tt
    | inr short ↦ rw short (elim (Bool-cases (pl.regex_compiles (c ∷ v))) [
      | inl good ↦ rw good (h, omega arith, ground arith, good)
      | inr bad ↦ rw bad tt
    ])
  ]

  regex_rule-IsGood : (v : Bytes) → IsGood pl allow (regex_rule pl allow v)
  unfolding regex_rule
  regex_rule-IsGood v = if_allowed allow _ (regex-IsGood (trim_space pl v))
    where
      if_allowed :
          (b : Bool) (r : Result ParseError Entry)
          → (b ≡ true → IsGood pl allow r)
          → IsGood pl allow (if not b then err ParseError.regex_disabled else r)
      if_allowed true r h = h refl
      if_allowed false r h = tt

  parse_one-IsGood : (line : Bytes) → IsGood pl allow (parse_one pl allow line)
  unfolding parse_one
  parse_one-IsGood line =
      let by_suffix = host_rule-IsGood suffix (λ v h. h) in
      let by_exact = host_rule-IsGood exact (λ v h. h) in
      switch-All (IsGood pl allow) (parse_cases pl allow line) _
        (
          by_suffix _,
          (
            tt,
            (
              regex_rule-IsGood _,
              (by_exact _, (by_suffix _, (by_suffix _, (by_suffix _, (by_suffix _, (tt, tt)))))),
            ),
          ),
        )
        (by_exact line)

-- A line that is accepted, in whatever form, is a rule.
pub parse_one-IsRule :
    (pl : Platform) (allow : Bool) (line : Bytes) (x : Entry)
    → parse_one pl allow line ≡ ok x
    → IsRule pl allow x
parse_one-IsRule pl allow line x e = rw e at (parse_one-IsGood pl allow line)

-- What the loop keeps true of its variables.
record IsProgress (pl : Platform) (allow : Bool) (p : Progress) : Type 0 where
  rules : All (IsRule pl allow) p.result.entries
  unrepeated : nodup p.result.entries ≡ true
  seen : (x : Entry) → elem x p.seen ≡ elem x p.result.entries

module _ (pl : Platform) (allow : Bool) (max : ℕ) where
  nodup-snoc :
      (x : Entry) (xs : List Entry)
      → elem x xs ≡ false
      → nodup xs ≡ true
      → nodup (xs ++ x ∷ []) ≡ true
  nodup-snoc x [] f h = refl
  nodup-snoc x (y ∷ xs) f h =
      ground (arith, nodup-snoc x xs, elem-append y xs (x ∷ []), beq_comm x y)
    where
      beq_comm : (a b : Entry) → entry_beq a b ≡ entry_beq b a
      beq_comm a b =
          eq_of_iff (entry_beq a b) (entry_beq b a)
            (λ h. (entry_beq_iff b a).1 (sym ((entry_beq_iff a b).0 h)))
            (λ h. (entry_beq_iff a b).1 (sym ((entry_beq_iff b a).0 h)))

  accept-IsProgress :
      (x : Entry) (p : Progress)
      → IsRule pl allow x
      → IsProgress pl allow p
      → IsProgress pl allow (accept max x p).0
        × ((accept max x p).1 ≡ false
            → length p.result.entries ≤ max
            → length (accept max x p).0.result.entries ≤ max)
  unfolding accept
  accept-IsProgress x p r v = elim (Bool-cases (elem x p.seen)) [
    | inl old ↦ rw old (v, λ _ h. h)
    | inr new ↦ rw new (
      record {
        rules = All-append (IsRule pl allow) p.result.entries (x ∷ []) v.rules (r, tt);
        unrepeated = nodup-snoc x p.result.entries (sym (v.seen x) ∙ new) v.unrepeated;
        seen = λ y. ground (arith, v.seen y, elem-append y p.result.entries (x ∷ []));
      },
      λ under h. ltb→le max (length (p.result.entries ++ x ∷ [])) under,
    )
  ]

  abbrev Keeps : Progress → Progress × Bool → Type 0
  Keeps p (q, exceeded) =
      IsProgress pl allow q
      × (exceeded ≡ false → length p.result.entries ≤ max → length q.result.entries ≤ max)

  parse_line-Keeps :
      (raw : Bytes) (p : Progress) → IsProgress pl allow p → Keeps p (parse_line pl allow max raw p)
  unfolding parse_line
  parse_line-Keeps raw p v = cleaned (clean_line pl raw)
    where
      parsed :
          (line : Bytes) (r : Result ParseError Entry)
          → parse_one pl allow line ≡ r
          → Keeps p (elim r [
            | err e ↦ (record p { result = skip_line line e p.result }, false)
            | ok x ↦ accept max x p
          ])
      parsed line (err e) q =
          unfold skip_line in
          (record { rules = v.rules; unrepeated = v.unrepeated; seen = v.seen }, λ _ h. h)
      parsed line (ok x) q = accept-IsProgress x p (parse_one-IsRule pl allow line x q) v

      cleaned :
          (o : Option Bytes)
          → Keeps p (elim o [
            | none ↦ (p, false)
            | some line ↦ elim (parse_one pl allow line) [
              | err e ↦ (record p { result = skip_line line e p.result }, false)
              | ok x ↦ accept max x p
            ]
          ])
      cleaned none = (v, λ _ h. h)
      cleaned (some line) = parsed line (parse_one pl allow line) refl

  parse_loop-Keeps :
      (lines : List Bytes) (p : Progress)
      → IsProgress pl allow p
      → Keeps p (parse_loop pl allow max lines p)
  unfolding parse_loop
  parse_loop-Keeps [] p v = (v, λ _ h. h)
  parse_loop-Keeps (raw ∷ lines) p v =
      next (parse_line pl allow max raw p) (parse_line-Keeps raw p v) (parse_loop-Keeps lines)
    where
      next :
          (s : Progress × Bool)
          → Keeps p s
          → ((q : Progress) → IsProgress pl allow q → Keeps q (parse_loop pl allow max lines q))
          → Keeps p
              (elim (s.1) [ true ↦ (s.0, true) | false ↦ parse_loop pl allow max lines (s.0) ])
      next (q, true) k ih = (k.0, λ e. cc)
      next (q, false) k ih = ((ih q k.0).0, λ e h. (ih q k.0).1 e (k.1 refl h))

-- With no limit error the rules are sorted, none occurs twice, they are no more than the limit, and
-- each is a rule.
pub parse_lines-IsRule :
    (pl : Platform) (opt : ParseOptions) (body : Bytes)
    → (parse_lines pl opt body).1 ≡ false
    → let out = (parse_lines pl opt body).0.entries in
      IsSorted entry_lt out
      × (nodup out ≡ true)
      × (length out ≤ entry_limit opt.max_entries)
      × All (IsRule pl opt.allow_regex) out
unfolding parse_lines sort_entries
parse_lines-IsRule pl opt body h =
    let max = entry_limit opt.max_entries in
    let lines = split 10 body in
    let (v, bound) =
      parse_loop-Keeps pl opt.allow_regex max lines no_progress
        (record { rules = tt; unrepeated = refl; seen = λ x. refl }) in
    let out = (parse_loop pl opt.allow_regex max lines no_progress).0.result.entries in
    rw h (
      sort-IsSorted entry_lt entry_lt_asymm out,
      nodup-sort entry_lt out ∙ v.unrepeated,
      rw (length-sort entry_lt out) (bound h (omega arith)),
      All-sort entry_lt (IsRule pl opt.allow_regex) out v.rules,
    )

-- The limit error does not matter for that each is a rule.
pub parse_lines-rules :
    (pl : Platform) (opt : ParseOptions) (body : Bytes)
    → All (IsRule pl opt.allow_regex) (parse_lines pl opt body).0.entries
unfolding parse_lines sort_entries
parse_lines-rules pl opt body =
    let lines = split 10 body in
    let out = parse_loop pl opt.allow_regex (entry_limit opt.max_entries) lines no_progress in
    let v : IsProgress pl opt.allow_regex (out.0) =
      (parse_loop-Keeps pl opt.allow_regex (entry_limit opt.max_entries) lines no_progress
        (record { rules = tt; unrepeated = refl; seen = λ x. refl })).0 in
    by_limit (out.0.result) (out.1) v.rules
  where
    by_limit :
        (r : ParseResult) (exceeded : Bool)
        → All (IsRule pl opt.allow_regex) r.entries
        → All
            (IsRule pl opt.allow_regex)
            ((if exceeded then r else record r { entries = sort_entries r.entries }).entries)
    by_limit r true h = h
    by_limit r false h = All-sort entry_lt (IsRule pl opt.allow_regex) r.entries h
