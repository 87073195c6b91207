-- ===== src/Pipeline/Approve.antt =====
-- `Approve` of panel/internal/rules/pipeline.go, and `approveRuleSet` of panel/internal/api/rulesets.go.
use smart_dns_proxy.Prelude.{
  ◌+◌, Bool, true, false, Option, none, some, List, [], ◌∷◌, ltb, if◌then◌else◌, nat_eq, is_empty,
  Bytes, bytes_beq, bytes_eq, Result, ok, err,
}
use smart_dns_proxy.Pipeline.{
  Status, awaiting_approval, active, rejected, is_rejected, RuleSetVersion, RuleSet,
}
use smart_dns_proxy.Pipeline.Build.{version_of, supersede}

pub data ApproveError : Type 0 where
  version_not_found is_rejected_version no_pending not_saved : ApproveError

-- UPDATE ... SET status=$2 WHERE id=$1
unfoldable pub set_status : Bytes → Status → List RuleSetVersion → List RuleSetVersion
set_status id status [] = []
set_status id status (v ∷ versions) =
    (if bytes_beq v.id id then record v { status = status } else v) ∷ set_status id status versions

-- The transaction commits whole or not at all.
unfoldable pub approve : Bool → Bytes → RuleSet → Result ApproveError Unit × RuleSet
unfolding version_of supersede set_status
approve write_fails id rs = elim (version_of id rs.versions) [
  | none ↦ (err version_not_found, rs)
  | some v ↦
      if is_rejected v.status
      then (err is_rejected_version, rs)
      else if write_fails
      then (err not_saved, rs)
      else (
        ok tt,
        record rs {
          versions = set_status id active (supersede rs.versions);
          active_version_id = some id;
          version = rs.version + 1;
        },
      )
]

abbrev pub is_awaiting : Status → Bool
is_awaiting awaiting_approval = true
is_awaiting _ = false

-- the version with the highest sequence that awaits approval
unfoldable pub pending : List RuleSetVersion → Option RuleSetVersion
pending [] = none
pending (v ∷ versions) =
    let rest = pending versions in
    if is_awaiting v.status
    then elim rest [ none ↦ some v | some u ↦ if ltb v.sequence u.sequence then some u else some v ]
    else rest

unfoldable pub pending_id : List RuleSetVersion → Option Bytes
unfolding pending
pending_id versions = elim (pending versions) [ none ↦ none | some v ↦ some v.id ]

-- The handler, on the ID in the request or the pending version.
unfoldable pub approve_rule_set : Bool → Bytes → Bool → RuleSet → Result ApproveError Unit × RuleSet
unfolding approve pending_id set_status
approve_rule_set write_fails version_id reject rs =
    elim (if is_empty version_id then pending_id rs.versions else some version_id) [
      | none ↦ (err no_pending, rs)
      | some id ↦
          if reject
          then (if write_fails
              then (err not_saved, rs)
              else (ok tt, record rs { versions = set_status id rejected rs.versions }))
          else approve write_fails id rs
    ]
