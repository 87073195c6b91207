-- ===== src/Pipeline/Build.antt =====
-- `Build` of panel/internal/rules/pipeline.go.
use smart_dns_proxy.Prelude.{
  ℕ, ◌+◌, ◌*◌, Bool, not, ◌&&◌, ◌||◌, Option, none, some, List, [], ◌∷◌, ◌++◌, ltb, ◌==◌,
  if◌then◌else◌, nat_eq, length, is_empty, Bytes, codes, bytes_beq, bytes_eq, Result, ok, err,
}
use smart_dns_proxy.Platform.{Platform}
use smart_dns_proxy.Domainset.{Entry}
use smart_dns_proxy.Domainset.Parse.{ParseOptions, parse_lines}
use smart_dns_proxy.Domainset.Rules.{merge, diff, Counts, counts}
use smart_dns_proxy.Pipeline.{
  Status, awaiting_approval, active, superseded, is_active, RuleSource, RuleSetVersion, RuleSet,
  Thresholds, default_thresholds, World, Database, hash, join_lines, load,
}

pub data BuildError : Type 0 where
  all_sources_failed database_error : BuildError

-- `status` is none for "unchanged".
pub record BuildResult : Type 0 where
  pub status : Option Status
  pub version_id : Bytes
  pub sequence : ℕ
  pub content_hash : Bytes
  pub counts : Counts
  pub added : ℕ
  pub removed : ℕ

-- The variables of the loop over the sources.
pub record Collected : Type 0 where
  pub includes : List Entry
  pub excludes : List Entry
  pub ok_sources : ℕ
  pub failed_sources : ℕ

abbrev pub nothing_yet : Collected
nothing_yet = record { includes = []; excludes = []; ok_sources = 0; failed_sources = 0 }

-- One round, on an enabled source: with the source as it is stored after it.
unfoldable pub collect_one :
    Platform → World → Bool → RuleSource → Collected → Collected × RuleSource
unfolding load
collect_one pl w allow_regex src c = elim (load pl w src) [
  | none ↦ (record c { failed_sources = c.failed_sources + 1 }, src)
  | some (body, src') ↦
      let (parsed, failed) =
        parse_lines pl (record { allow_regex = allow_regex; max_entries = 0 }) body in
      (
        if failed
            then record c { failed_sources = c.failed_sources + 1 }
            else if bytes_beq src.mode (codes "exclude")
            then record c { excludes = c.excludes ++ parsed.entries; ok_sources = c.ok_sources + 1 }
            else record c {
              includes = c.includes ++ parsed.entries;
              ok_sources = c.ok_sources + 1;
            },
        src',
      )
]

unfoldable pub collect :
    Platform → World → Bool → List RuleSource → Collected → Collected × List RuleSource
unfolding collect_one
collect pl w allow_regex [] c = (c, [])
collect pl w allow_regex (src ∷ sources) c =
    let (mid, src') = if src.enabled then collect_one pl w allow_regex src c else (c, src) in
    let (last, rest) = collect pl w allow_regex sources mid in (last, src' ∷ rest)

-- the version with the ID, if any
unfoldable pub version_of : Bytes → List RuleSetVersion → Option RuleSetVersion
version_of id [] = none
version_of id (v ∷ versions) = if bytes_beq v.id id then some v else version_of id versions

-- The active version's hash and entries, as far as they can be read: both errors are dropped.
unfoldable pub previous : Database → RuleSet → Bytes × List Entry
unfolding version_of
previous db rs = elim rs.active_version_id [
  | none ↦ ([], [])
  | some id ↦ elim (version_of id rs.versions) [
    | none ↦ ([], [])
    | some v ↦
        (if db.hash_unread then [] else v.content_hash, if db.entries_unread then [] else v.entries)
  ]
]

-- Whether a person has to look at the change.
unfoldable pub is_suspicious : Thresholds → ℕ → List Entry → List Entry → Bool
is_suspicious thresholds failed_sources prev effective =
    let th = if thresholds.max_added == 0 then default_thresholds else thresholds in
    let (added, removed) = diff prev effective in
    (ltb 0 (length prev) && length effective == 0)
    || (ltb 0 (length prev) && ltb (length prev * th.max_removed_percent) (length removed * 100))
    || ltb th.max_added (length added)
    || ltb 0 failed_sources

unfoldable pub decide : RuleSet → Thresholds → ℕ → List Entry → List Entry → Status
unfolding is_suspicious
decide rs thresholds failed_sources prev effective =
    let suspicious = is_suspicious thresholds failed_sources prev effective in
    if length prev == 0 && ltb 0 (length effective) && not suspicious
    then active
    else if bytes_beq rs.update_mode (codes "auto_apply") && not suspicious
    then active
    else awaiting_approval

-- max(sequence), 0 if there is none
unfoldable pub last_sequence : List RuleSetVersion → ℕ
last_sequence [] = 0
last_sequence (v ∷ versions) =
    let rest = last_sequence versions in if ltb rest v.sequence then v.sequence else rest

-- UPDATE ... SET status='superseded' WHERE status='active'
unfoldable pub supersede : List RuleSetVersion → List RuleSetVersion
supersede [] = []
supersede (v ∷ versions) =
    (if is_active v.status then record v { status = superseded } else v) ∷ supersede versions

-- The rows that the transaction leaves.
unfoldable pub insert_version : RuleSet → RuleSetVersion → RuleSet
unfolding supersede
insert_version rs v =
    if is_active v.status
    then record rs { versions = v ∷ supersede rs.versions; active_version_id = some v.id }
    else record rs { versions = v ∷ rs.versions }

-- What `Build` makes of the collected rules.
unfoldable pub effective_of : Platform → RuleSet → Collected → List Entry
unfolding join_lines
effective_of pl rs c =
    let opts : ParseOptions = record { allow_regex = rs.allow_regex; max_entries = 0 } in
    let manual_inc = (parse_lines pl opts (join_lines rs.manual_include)).0 in
    let manual_exc = (parse_lines pl opts (join_lines rs.manual_exclude)).0 in
    merge (c.includes ++ manual_inc.entries) (c.excludes ++ manual_exc.entries)

unfoldable pub none_usable : Platform → RuleSet → Collected → Bool
unfolding join_lines
none_usable pl rs c =
    let opts : ParseOptions = record { allow_regex = rs.allow_regex; max_entries = 0 } in
    c.ok_sources == 0
    && ltb 0 c.failed_sources
    && length (parse_lines pl opts (join_lines rs.manual_include)).0.entries == 0

-- the row that is written
unfoldable pub new_version :
    World → Database → Thresholds → RuleSet → ℕ → List Entry → RuleSetVersion
unfolding decide previous last_sequence hash
new_version w db th rs failed_sources effective = record {
  id = db.new_id;
  sequence = last_sequence rs.versions + 1;
  content_hash = hash w effective;
  status = decide rs th failed_sources (previous db rs).1 effective;
  entries = effective;
}

-- The rule set after it too. A failed transaction is rolled back.
unfoldable pub build :
    Platform → World → Database → Thresholds → RuleSet → Result BuildError BuildResult × RuleSet
unfolding collect previous insert_version new_version effective_of none_usable
build pl w db th rs0 =
    let (c, sources) = collect pl w rs0.allow_regex rs0.sources nothing_yet in
    let rs : RuleSet = record rs0 { sources = sources } in
    let effective = effective_of pl rs c in
    let (prev_hash, prev) = previous db rs in
    let (added, removed) = diff prev effective in
    let v = new_version w db th rs c.failed_sources effective in
    let result : Option Status → Bytes → ℕ → BuildResult = λ status id sequence. record {
      status = status;
      version_id = id;
      sequence = sequence;
      content_hash = v.content_hash;
      counts = counts effective;
      added = length added;
      removed = length removed;
    } in
    if none_usable pl rs c
    then (err all_sources_failed, rs)
    else if not (is_empty prev_hash) && bytes_beq prev_hash v.content_hash
    then (ok (result none [] 0), rs)
    else if db.write_fails
    then (err database_error, rs)
    else (ok (result (some v.status) v.id v.sequence), insert_version rs v)
