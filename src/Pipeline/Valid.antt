-- ===== src/Pipeline/Valid.antt =====
-- The rules in the versions that panel/internal/rules/pipeline.go builds.
use smart_dns_proxy.Prelude.{
  ◌+◌, inl, inr, Bool, true, false, Option, none, some, List, [], ◌∷◌, ◌++◌, arith, if◌then◌else◌,
  nat_eq, All, All-append, All-elem, elem-All, Bytes, codes, bytes_beq, bytes_eq,
}
use smart_dns_proxy.Platform.{Platform}
use smart_dns_proxy.Domainset.{Entry, entry_eq}
use smart_dns_proxy.Domainset.Parse.{ParseOptions, ParseResult, parse_lines}
use smart_dns_proxy.Domainset.Parse.Laws.{IsRule, parse_lines-rules}
use smart_dns_proxy.Domainset.Rules.{merge}
use smart_dns_proxy.Domainset.Rules.Merge.{merge-elem}
use smart_dns_proxy.Pipeline.{
  superseded, is_active, RuleSource, RuleSetVersion, RuleSet, Thresholds, World, Database,
  join_lines, load,
}
use smart_dns_proxy.Pipeline.Build.{
  Collected, nothing_yet, collect_one, collect, supersede, insert_version, effective_of,
  new_version, build,
}
use smart_dns_proxy.Pipeline.Kept.{collected, stored, candidate, build-Ends}

module _ (pl : Platform) (allow : Bool) where
  abbrev Rules : List Entry → Type 0
  Rules es = All (IsRule pl allow) es

  merge-Rules : (includes excludes : List Entry) → Rules includes → Rules (merge includes excludes)
  merge-Rules includes excludes h = All-elem (IsRule pl allow) (merge includes excludes) (λ x m.
      elem-All (IsRule pl allow) includes x h (ground (arith, merge-elem x includes excludes)))

  collect_one-Rules :
      (w : World) (src : RuleSource) (c : Collected)
      → Rules c.includes
      → Rules ((collect_one pl w allow src c).0).includes
  unfolding collect_one
  collect_one-Rules w src c h = by_load (load pl w src)
    where
      opts : ParseOptions
      opts = record { allow_regex = allow; max_entries = 0 }

      by_result :
          (parsed : ParseResult) (failed exclude : Bool)
          → Rules parsed.entries
          → Rules
              (if failed
                then record c { failed_sources = c.failed_sources + 1 }
                else if exclude
                then record c {
                  excludes = c.excludes ++ parsed.entries;
                  ok_sources = c.ok_sources + 1;
                }
                else record c {
                  includes = c.includes ++ parsed.entries;
                  ok_sources = c.ok_sources + 1;
                }).includes
      by_result parsed true exclude k = h
      by_result parsed false true k = h
      by_result parsed false false k = All-append (IsRule pl allow) c.includes parsed.entries h k

      by_load :
          (o : Option (Bytes × RuleSource))
          → Rules
              ((elim o as (λ _. Collected × RuleSource) [
                | none ↦ (record c { failed_sources = c.failed_sources + 1 }, src)
                | some (body, src') ↦
                    let (parsed, failed) = parse_lines pl opts body in
                    (
                      if failed
                          then record c { failed_sources = c.failed_sources + 1 }
                          else if bytes_beq src.mode (codes "exclude")
                          then record c {
                            excludes = c.excludes ++ parsed.entries;
                            ok_sources = c.ok_sources + 1;
                          }
                          else record c {
                            includes = c.includes ++ parsed.entries;
                            ok_sources = c.ok_sources + 1;
                          },
                      src',
                    )
              ]).0
                ).includes
      by_load none = h
      by_load (some (body, src')) =
          by_result (parse_lines pl opts body).0 (parse_lines pl opts body).1 _
            (parse_lines-rules pl opts body)

  collect-Rules :
      (w : World) (sources : List RuleSource) (c : Collected)
      → Rules c.includes
      → Rules ((collect pl w allow sources c).0).includes
  unfolding collect
  collect-Rules w [] c h = h
  collect-Rules w (src ∷ sources) c h = collect-Rules w sources _ (by_enabled src.enabled)
    where
      by_enabled :
          (on : Bool)
          → let mid : Collected × RuleSource =
              if on then collect_one pl w allow src c else (c, src) in
            Rules ((mid.0).includes)
      by_enabled true = collect_one-Rules w src c h
      by_enabled false = h

  -- A version of rules that parse.
  abbrev Parsed : RuleSetVersion → Type 0
  Parsed v = All (IsRule pl allow) v.entries

  supersede-Parsed : (vs : List RuleSetVersion) → All Parsed vs → All Parsed (supersede vs)
  unfolding supersede
  supersede-Parsed [] h = tt
  supersede-Parsed (v ∷ vs) (k, h) = (by_status (is_active v.status), supersede-Parsed vs h)
    where
      by_status : (a : Bool) → Parsed (if a then record v { status = superseded } else v)
      by_status true = k
      by_status false = k

  insert_version-Parsed :
      (rs : RuleSet) (v : RuleSetVersion)
      → Parsed v
      → All Parsed rs.versions
      → All Parsed (insert_version rs v).versions
  unfolding insert_version
  insert_version-Parsed rs v k h = by_status (is_active v.status)
    where
      by_status :
          (a : Bool)
          → let after : RuleSet =
              if a
              then record rs { versions = v ∷ supersede rs.versions; active_version_id = some v.id }
              else record rs { versions = v ∷ rs.versions } in
            All Parsed after.versions
      by_status true = (k, supersede-Parsed rs.versions h)
      by_status false = (k, h)

-- A build keeps the versions well formed: if every rule of every version is a host name or a pattern
-- that the rule set allows and that compiles, it is so after the build too.
pub build-IsRule :
    (pl : Platform) (w : World) (db : Database) (th : Thresholds) (rs : RuleSet)
    → All (λ (v : RuleSetVersion). All (IsRule pl rs.allow_regex) v.entries) rs.versions
    → All
        (λ (v : RuleSetVersion). All (IsRule pl rs.allow_regex) v.entries)
        (build pl w db th rs).1.versions
unfolding new_version effective_of
build-IsRule pl w db th rs h = elim (build-Ends pl w db th rs) [
  | inl (e, o) ↦ rw o h
  | inr (inl (r, s, o)) ↦ rw o h
  | inr (inr (r, s, i, o)) ↦ rw o (
      insert_version-Parsed pl rs.allow_regex (stored pl w db th rs) (candidate pl w db th rs) rules
        h)
]
  where
    opts : ParseOptions
    opts = record { allow_regex = rs.allow_regex; max_entries = 0 }

    c : Collected
    c = collected pl w db th rs

    rules : All (IsRule pl rs.allow_regex) (candidate pl w db th rs).entries
    rules =
        merge-Rules pl rs.allow_regex
          (c.includes ++ (parse_lines pl opts (join_lines rs.manual_include)).0.entries) _
          (All-append (IsRule pl rs.allow_regex) c.includes _
            (collect-Rules pl rs.allow_regex w rs.sources nothing_yet tt)
            (parse_lines-rules pl opts (join_lines rs.manual_include)))
