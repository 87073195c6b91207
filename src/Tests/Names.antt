-- ===== src/Tests/Names.antt =====
-- Host names, rules and matchers.
use smart_dns_proxy.Prelude.{
  ℕ, zero, suc, ◌≤◌, ◌≡◌, refl, ◌↔◌, true, false, some, [], ◌∷◌, ◌++◌, arith, nat_eq, length,
  is_empty, All, elem, nodup, Bytes, codes, bytes_eq, ok,
}
use smart_dns_proxy.Prelude.Sort.{IsSorted}
use smart_dns_proxy.Tests.{plain}
use smart_dns_proxy.Strings.{split, dot}
use smart_dns_proxy.Strings.Laws.{dots}
use smart_dns_proxy.Domainset.{Entry, Kind, exact, suffix, regex, entry_eq, entry_lt}
use smart_dns_proxy.Domainset.Host.{normalize_host, validate_host}
use smart_dns_proxy.Domainset.Host.Laws.{IsHost, validate_host_iff}
use smart_dns_proxy.Domainset.Host.Normal.{normalize_host-IsHost}
use smart_dns_proxy.Domainset.Parse.{ParseOptions, parse_lines, entry_limit}
use smart_dns_proxy.Domainset.Parse.Laws.{IsRule, parse_lines-IsRule}
use smart_dns_proxy.Domainset.Rules.{merge}
use smart_dns_proxy.Domainset.Rules.Excluded.{Removed, merge_iff}
use smart_dns_proxy.Domainset.Rules.Canonical.{SameRules, merge_canonical}
use smart_dns_proxy.Domainset.Matcher.{Matcher, new_set, match, compile, specificity}
use smart_dns_proxy.Domainset.Matcher.Laws.{Covered, match_iff}
use smart_dns_proxy.Domainset.Matcher.Depth.{is_negative, only_suffix, specificity-deep}

abbrev example : Bytes
example = codes "example.com"

abbrev www : Bytes
www = codes "www.example.com"

abbrev site : Entry
site = record { kind = suffix; value = example }

abbrev page : Entry
page = record { kind = exact; value = www }

abbrev other : Entry
other = record { kind = exact; value = codes "other.net" }

normalize_host-IsHost_example : IsHost www
unfolding normalize_host smart_dns_proxy.Strings.trim_prefix smart_dns_proxy.Strings.trim_space
    smart_dns_proxy.Strings.trim_last validate_host smart_dns_proxy.Strings.to_lower
    smart_dns_proxy.Strings.contains smart_dns_proxy.Strings.lower_byte
    smart_dns_proxy.Domainset.Host.check_labels split smart_dns_proxy.Domainset.Host.check_label
normalize_host-IsHost_example = normalize_host-IsHost plain (codes " WWW.Example.com. ") www refl

validate_host_iff_example : (validate_host www ≡ ok tt) ↔ IsHost www
validate_host_iff_example = validate_host_iff www

abbrev options : ParseOptions
options = record { allow_regex = false; max_entries = 0 }

abbrev upload : Bytes
upload = codes "# sites\nexample.com\n=www.example.com\n"

parse_lines-IsRule_example :
    let out = (parse_lines plain options upload).0.entries in
    IsSorted entry_lt out
    × (nodup out ≡ true)
    × (length out ≤ entry_limit options.max_entries)
    × All (IsRule plain options.allow_regex) out
unfolding parse_lines smart_dns_proxy.Domainset.Parse.clean_line smart_dns_proxy.Strings.trim_space
    smart_dns_proxy.Domainset.Parse.parse_one smart_dns_proxy.Strings.to_lower
    smart_dns_proxy.Strings.fields smart_dns_proxy.Strings.lower_byte normalize_host validate_host
    smart_dns_proxy.Strings.contains smart_dns_proxy.Domainset.Host.check_labels
    smart_dns_proxy.Domainset.Host.check_label
parse_lines-IsRule_example = parse_lines-IsRule plain options upload refl

merge_iff_example :
    (elem page (merge (page ∷ other ∷ []) (site ∷ [])) ≡ true)
    ↔ ((elem page (page ∷ other ∷ []) ≡ true) × (Removed (site ∷ []) page → ⊥))
merge_iff_example = merge_iff page (page ∷ other ∷ []) (site ∷ [])

same_rules : SameRules (site ∷ other ∷ []) (other ∷ site ∷ site ∷ [])
same_rules a = ground arith

merge_canonical_example :
    merge (site ∷ other ∷ []) (page ∷ []) ≡ merge (other ∷ site ∷ site ∷ []) (page ∷ [])
merge_canonical_example =
    merge_canonical (site ∷ other ∷ []) (other ∷ site ∷ site ∷ []) (page ∷ []) (page ∷ [])
      same_rules (λ a. refl)

match_iff_example :
    (match plain (some (compile plain (new_set (site ∷ other ∷ [])))) www ≡ true)
    ↔ ((is_empty www ≡ false) × Covered plain (site ∷ other ∷ []) www)
match_iff_example = match_iff plain (site ∷ other ∷ []) www

abbrev sites : Matcher
sites = record { exact_names = codes "other.net" ∷ []; suffixes = example ∷ []; patterns = [] }

abbrev deep : ℕ → Bytes
deep zero = []
deep (suc n) = 97 ∷ dot ∷ deep n

specificity-deep_example :
    (match plain (some (only_suffix example)) (deep 100 ++ dot ∷ example) ≡ true)
    × (is_negative (specificity plain (some (only_suffix example)) (deep 100 ++ dot ∷ example))
        ≡ true)
specificity-deep_example = specificity-deep plain (deep 100) example (unfold dots in omega arith)
