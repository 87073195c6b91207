-- ===== src/Pipeline/Steps.antt =====
-- The steps of a rule set: builds, reviews and edits, of panel/internal/rules/pipeline.go and
-- panel/internal/api/rulesets.go.
use smart_dns_proxy.Prelude.{
  ◌+◌, ◌≡◌, refl, Bool, true, false, Option, none, some, List, [], ◌∷◌, map, if◌then◌else◌, nat_eq,
  is_empty, All, nodup, Bytes, bytes_beq_refl, bytes_eq, Result, ok, err,
}
use smart_dns_proxy.Platform.{Platform}
use smart_dns_proxy.Pipeline.{
  active, rejected, is_rejected, RuleSetVersion, RuleSet, Thresholds, World, Database,
}
use smart_dns_proxy.Pipeline.Build.{version_of, supersede, build}
use smart_dns_proxy.Pipeline.Approve.{
  ApproveError, version_not_found, is_rejected_version, no_pending, not_saved, set_status, approve,
  pending_id, approve_rule_set,
}
use smart_dns_proxy.Pipeline.Kept.{
  IsConsistent, Pointed, supersede-Pointed, set_status-Pointed, supersede-sequences,
  set_status-sequences, build-IsConsistent,
}

approve-IsConsistent :
    (fails : Bool) (id : Bytes) (rs : RuleSet)
    → IsConsistent rs
    → IsConsistent (approve fails id rs).1
unfolding approve
approve-IsConsistent fails id rs (h, unique) = by_version (version_of id rs.versions)
  where
    done : RuleSet
    done = record rs {
      versions = set_status id active (supersede rs.versions);
      active_version_id = some id;
      version = rs.version + 1;
    }

    done-IsConsistent : IsConsistent done
    done-IsConsistent = (
      set_status-Pointed (some id) id active (supersede rs.versions) (rw (bytes_beq_refl id) refl)
          (supersede-Pointed (some id) rs.versions),
      rw (set_status-sequences id active (supersede rs.versions), supersede-sequences rs.versions)
          unique,
    )

    by_end :
        (refused broken : Bool)
        → let o : Result ApproveError Unit × RuleSet =
            if refused
            then (err is_rejected_version, rs)
            else if broken
            then (err not_saved, rs)
            else (ok tt, done) in
          IsConsistent (o.1)
    by_end true broken = (h, unique)
    by_end false true = (h, unique)
    by_end false false = done-IsConsistent

    by_version :
        (o : Option RuleSetVersion)
        → IsConsistent
            (elim o as (λ _. Result ApproveError Unit × RuleSet) [
              | none ↦ (err version_not_found, rs)
              | some v ↦
                  if is_rejected v.status
                  then (err is_rejected_version, rs)
                  else if fails
                  then (err not_saved, rs)
                  else (ok tt, done)
            ]).1
    by_version none = (h, unique)
    by_version (some v) = by_end (is_rejected v.status) fails

review-IsConsistent :
    (fails : Bool) (id : Bytes) (reject : Bool) (rs : RuleSet)
    → IsConsistent rs
    → IsConsistent (approve_rule_set fails id reject rs).1
unfolding approve_rule_set
review-IsConsistent fails id reject rs (h, unique) =
    by_id (if is_empty id then pending_id rs.versions else some id)
  where
    by_end :
        (i : Bytes) (r f : Bool)
        → let o : Result ApproveError Unit × RuleSet =
            if r
            then (if f
                then (err not_saved, rs)
                else (ok tt, record rs { versions = set_status i rejected rs.versions }))
            else approve fails i rs in
          IsConsistent (o.1)
    by_end i true true = (h, unique)
    by_end i true false = (
      set_status-Pointed rs.active_version_id i rejected rs.versions refl h,
      rw (set_status-sequences i rejected rs.versions) unique,
    )
    by_end i false f = approve-IsConsistent fails i rs (h, unique)

    by_id :
        (o : Option Bytes)
        → IsConsistent
            (elim o as (λ _. Result ApproveError Unit × RuleSet) [
              | none ↦ (err no_pending, rs)
              | some i ↦
                  if reject
                  then (if fails
                      then (err not_saved, rs)
                      else (ok tt, record rs { versions = set_status i rejected rs.versions }))
                  else approve fails i rs
            ]).1
    by_id none = (h, unique)
    by_id (some i) = by_end i reject fails

-- The rule sets that come about: a new one has no versions; a person may edit the fields of one; and
-- it is built and reviewed.
pub data Reachable (pl : Platform) : RuleSet → Type 0 where
  created : (rs : RuleSet) → is_empty rs.versions ≡ true → Reachable pl rs
  edited :
      (rs rs' : RuleSet)
      → rs'.versions ≡ rs.versions
      → rs'.active_version_id ≡ rs.active_version_id
      → Reachable pl rs
      → Reachable pl rs'
  built :
      (w : World) (db : Database) (th : Thresholds) (rs : RuleSet)
      → Reachable pl rs
      → Reachable pl (build pl w db th rs).1
  reviewed :
      (fails : Bool) (id : Bytes) (reject : Bool) (rs : RuleSet)
      → Reachable pl rs
      → Reachable pl (approve_rule_set fails id reject rs).1

-- Whatever is built, approved, rejected and edited in whatever order, and whatever fails: an active
-- version is always the one that the rule set points to, and no two versions have the same number.
pub Reachable-IsConsistent : (pl : Platform) (rs : RuleSet) → Reachable pl rs → IsConsistent rs
Reachable-IsConsistent pl _ (created rs no_versions) = from_none rs.versions no_versions
  where
    from_none :
        (vs : List RuleSetVersion)
        → is_empty vs ≡ true
        → All (Pointed rs.active_version_id) vs
          × (nodup (map (λ (v : RuleSetVersion). v.sequence) vs) ≡ true)
    from_none [] e = (tt, refl)
    from_none (v ∷ vs) e = cc
Reachable-IsConsistent pl _ (edited old rs same_versions same_id r) =
    rw (same_versions, same_id) (Reachable-IsConsistent pl old r)
Reachable-IsConsistent pl _ (built w db th old r) =
    build-IsConsistent pl w db th old (Reachable-IsConsistent pl old r)
Reachable-IsConsistent pl _ (reviewed fails id reject old r) =
    review-IsConsistent fails id reject old (Reachable-IsConsistent pl old r)
