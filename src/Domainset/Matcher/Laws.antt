-- ===== src/Domainset/Matcher/Laws.antt =====
-- `Match` of shared/domainset/matcher.go, in terms of the rules that the matcher was built from.
use smart_dns_proxy.Prelude.{
  ℕ, zero, suc, ◌≡◌, refl, sym, ap, ◌∙◌, ◌↔◌, inl, inr, Bool, true, false, ◌&&◌, ◌||◌, some, List,
  [], ◌∷◌, arith, if◌then◌else◌, Bool-cases, Option-cases, nat_eq, beq_refl, length, is_empty, keep,
  any, elem, elem-append, elem-keep, Bytes, bytes_beq, bytes_beq_iff, bytes_eq,
}
use smart_dns_proxy.Platform.{Platform}
use smart_dns_proxy.Strings.{after_byte, dot}
use smart_dns_proxy.Strings.Laws.{IsLabelSuffix}
use smart_dns_proxy.Domainset.{Kind, exact, suffix, regex, Entry, kind_beq, entry_eq}
use smart_dns_proxy.Domainset.Rules.{suffix_hit_loop, suffix_hit}
use smart_dns_proxy.Domainset.Rules.Walk.{suffix_hit_iff}
use smart_dns_proxy.Domainset.Matcher.{
  Set, empty_set, put, new_set_loop, new_set, compile, match_loop, match,
}

-- A rule covers a host: the same name, the name or one above it, or a pattern that fits.
abbrev pub CoversBy : Platform → Kind → Bytes → Bytes → Type 0
CoversBy pl exact v host = v ≡ host
CoversBy pl suffix v host = IsLabelSuffix v host
CoversBy pl regex v host = (pl.regex_compiles v ≡ true) × (pl.regex_matches v host ≡ true)

abbrev pub Covers : Platform → Entry → Bytes → Type 0
Covers pl x host = CoversBy pl x.kind x.value host

abbrev pub Covered : Platform → List Entry → Bytes → Type 0
Covered pl es host = (x : Entry) × (elem x es ≡ true) × Covers pl x host

match_loop-eq :
    (fuel : ℕ) (suffixes : List Bytes) (h : Bytes)
    → match_loop fuel suffixes h ≡ suffix_hit_loop fuel (λ v. elem v suffixes) h
unfolding match_loop suffix_hit_loop
match_loop-eq zero suffixes h = refl
match_loop-eq (suc fuel) suffixes h = elim (Option-cases (after_byte dot h)) [
  | inl last ↦ ground arith
  | inr (rest, more) ↦ ground (arith, match_loop-eq fuel suffixes rest)
]

-- `new_set` sorts the rules by kind.
abbrev of_kind : Kind → Set → List Bytes
of_kind exact s = s.exact_names
of_kind suffix s = s.suffixes
of_kind regex s = s.patterns

put-elem :
    (k l : Kind) (v w : Bytes) (s : Set)
    → elem v (of_kind k (put l w s)) ≡ (elem v (of_kind k s) || (kind_beq k l && bytes_beq v w))
put-elem exact exact v w s = elem-append v s.exact_names (w ∷ []) ∙ ground arith
put-elem suffix suffix v w s = elem-append v s.suffixes (w ∷ []) ∙ ground arith
put-elem regex regex v w s = elem-append v s.patterns (w ∷ []) ∙ ground arith
put-elem exact _ v w s = ground arith
put-elem suffix _ v w s = ground arith
put-elem regex _ v w s = ground arith

new_set_loop-elem :
    (k : Kind) (v : Bytes) (es : List Entry) (s : Set)
    → elem v (of_kind k (new_set_loop es s))
      ≡ (elem v (of_kind k s) || elem (record { kind = k; value = v }) es)
unfolding new_set_loop
new_set_loop-elem k v [] s = ground arith
new_set_loop-elem k v (x ∷ es) s =
    ground (arith, new_set_loop-elem k v es (put x.kind x.value s), put-elem k x.kind v x.value s)

pub new_set-elem :
    (k : Kind) (v : Bytes) (es : List Entry)
    → elem v (of_kind k (new_set es)) ≡ elem (record { kind = k; value = v }) es
unfolding new_set
new_set-elem k v es = new_set_loop-elem k v es empty_set ∙ none_before k
  where
    none_before :
        (k : Kind)
        → (elem v (of_kind k empty_set) || elem (record { kind = k; value = v }) es)
          ≡ elem (record { kind = k; value = v }) es
    none_before exact = refl
    none_before suffix = refl
    none_before regex = refl

any_sound :
    (test : Bytes → Bool) (xs : List Bytes)
    → any test xs ≡ true
    → (v : Bytes) × (elem v xs ≡ true) × (test v ≡ true)
any_sound test [] h = cc
any_sound test (x ∷ xs) h = elim (Bool-cases (test x)) [
  | inl here ↦ (x, ground (arith, beq_refl x), here)
  | inr later ↦ let (v, m, t) = any_sound test xs (ground arith) in (v, ground arith, t)
]

any_complete :
    (test : Bytes → Bool) (xs : List Bytes) (v : Bytes)
    → elem v xs ≡ true
    → test v ≡ true
    → any test xs ≡ true
any_complete test [] v m t = cc
any_complete test (x ∷ xs) v m t = elim (Bool-cases (bytes_beq v x)) [
  | inl same ↦ ground (arith, ap test ((bytes_beq_iff v x).0 same))
  | inr other ↦ ground (arith, any_complete test xs v)
]

-- A matcher built from rules matches a host exactly if the host is not empty and one of the rules
-- covers it.
pub match_iff :
    (pl : Platform) (es : List Entry) (host : Bytes)
    → (match pl (some (compile pl (new_set es))) host ≡ true)
      ↔ ((is_empty host ≡ false) × Covered pl es host)
unfolding match compile
match_iff pl es host = (sound, complete)
  where
    names : List Bytes
    names = (new_set es).exact_names

    tops : List Bytes
    tops = (new_set es).suffixes

    fits : List Bytes
    fits = keep pl.regex_compiles (new_set es).patterns

    walk : match_loop (suc (length host)) tops host ≡ suffix_hit (λ v. elem v tops) host
    walk = unfold suffix_hit in match_loop-eq (suc (length host)) tops host

    answer : Bool
    answer =
        if is_empty host
        then false
        else if elem host names
        then true
        else if match_loop (suc (length host)) tops host
        then true
        else any (λ p. pl.regex_matches p host) fits

    sound : answer ≡ true → (is_empty host ≡ false) × Covered pl es host
    sound h = elim (Bool-cases (elem host names)) [
      | inl named ↦ (
        ground arith,
        (record { kind = exact; value = host }, sym (new_set-elem exact host es) ∙ named, refl),
      )
      | inr unnamed ↦ elim (Bool-cases (match_loop (suc (length host)) tops host)) [
        | inl beneath ↦
            let (s, b, m) = (suffix_hit_iff (λ v. elem v tops) host).0 (sym walk ∙ beneath) in
            (
              ground arith,
              (record { kind = suffix; value = s }, sym (new_set-elem suffix s es) ∙ m, b),
            )
        | inr outside ↦
            let (v, m, t) = any_sound (λ p. pl.regex_matches p host) fits (ground arith) in
            let kept = sym (elem-keep v pl.regex_compiles (new_set es).patterns) ∙ m in
            (
              ground arith,
              (
                record { kind = regex; value = v },
                sym (new_set-elem regex v es) ∙ ground arith,
                (ground arith, t),
              ),
            )
      ]
    ]

    complete : (is_empty host ≡ false) × Covered pl es host → answer ≡ true
    complete (full, (x, m, c)) = by_kind x.kind x.value m c
      where
        by_kind :
            (k : Kind) (v : Bytes)
            → elem (record { kind = k; value = v }) es ≡ true
            → CoversBy pl k v host
            → answer ≡ true
        by_kind exact v m c =
            let named : elem host names ≡ true = rw (sym c) (new_set-elem exact v es ∙ m) in
            ground arith
        by_kind suffix v m c =
            let hit =
              (suffix_hit_iff (λ v. elem v tops) host).1 (v, c, new_set-elem suffix v es ∙ m) in
            ground (arith, walk)
        by_kind regex v m c =
            let kept : elem v fits ≡ true =
              elem-keep v pl.regex_compiles (new_set es).patterns
              ∙ ground (arith, new_set-elem regex v es, c.0) in
            let hit = any_complete (λ p. pl.regex_matches p host) fits v kept c.1 in ground arith

-- A host that some rules cover is covered by every list that holds those rules.
pub match_mono :
    (pl : Platform) (es more : List Entry) (host : Bytes)
    → ((x : Entry) → elem x es ≡ true → elem x more ≡ true)
    → match pl (some (compile pl (new_set es))) host ≡ true
    → match pl (some (compile pl (new_set more))) host ≡ true
match_mono pl es more host within h =
    let (full, (x, m, c)) = (match_iff pl es host).0 h in
    (match_iff pl more host).1 (full, (x, within x m, c))
