-- ===== src/Pipeline/Checked.antt =====
-- What a build of panel/internal/rules/pipeline.go may activate, and what it leaves alone.
use smart_dns_proxy.Prelude.{
  ℕ, ◌*◌, ◌≤◌, ◌≡◌, refl, sym, ap, ◌∙◌, ◌⊎◌, inl, inr, Bool, true, false, not, ◌&&◌, none, some,
  Option, List, [], ◌∷◌, Bytes, arith, ltb, ◌==◌, if◌then◌else◌, nat_eq, length, codes, bytes_beq,
  bytes_eq, Result, ok, err, ok-inj,
}
use mathlib.Core.Path.{subst}
use smart_dns_proxy.Platform.{Platform}
use smart_dns_proxy.Domainset.{Entry}
use smart_dns_proxy.Domainset.Rules.{diff}
use smart_dns_proxy.Pipeline.{
  active, is_active, awaiting_approval, RuleSetVersion, RuleSet, Thresholds, default_thresholds,
  World, Database,
}
use smart_dns_proxy.Pipeline.Build.{
  BuildError, BuildResult, version_of, previous, is_suspicious, decide, supersede, insert_version,
  effective_of, new_version, build,
}
use smart_dns_proxy.Pipeline.Kept.{collected, stored, candidate, build-Ends}

abbrev pub in_force : Thresholds → Thresholds
in_force th = if th.max_added == 0 then default_thresholds else th

-- A change that needs nobody's approval: no source failed, at most so many rules are new, at most
-- such a share of the old rules is gone, and the new list is not empty where the old one was not.
abbrev pub IsQuiet : Thresholds → ℕ → List Entry → List Entry → Type 0
IsQuiet th failed_sources prev effective =
    (failed_sources ≡ 0)
    × (length (diff prev effective).0 ≤ (in_force th).max_added)
    × ((length prev ≡ 0)
        ⊎ ((length (diff prev effective).1 * 100 ≤ length prev * (in_force th).max_removed_percent)
            × (1 ≤ length effective)))

is_suspicious-IsQuiet :
    (th : Thresholds) (failed : ℕ) (prev effective : List Entry)
    → is_suspicious th failed prev effective ≡ false
    → IsQuiet th failed prev effective
unfolding is_suspicious
is_suspicious-IsQuiet th failed prev effective h =
    (ground arith, ground arith, by_prev (length prev == 0) refl)
  where
    by_prev :
        (z : Bool)
        → (length prev == 0) ≡ z
        → (length prev ≡ 0)
          ⊎ ((length (diff prev effective).1 * 100
                ≤ length prev * (in_force th).max_removed_percent)
              × (1 ≤ length effective))
    by_prev true e = inl (ground arith)
    by_prev false e = inr (ground arith, ground arith)

decide-active :
    (rs : RuleSet) (th : Thresholds) (failed : ℕ) (prev effective : List Entry)
    → decide rs th failed prev effective ≡ active
    → IsQuiet th failed prev effective
      × (((length prev ≡ 0) × (1 ≤ length effective))
          ⊎ (bytes_beq rs.update_mode (codes "auto_apply") ≡ true))
unfolding decide
decide-active rs th failed prev effective =
    by_tests (length prev == 0) (ltb 0 (length effective)) (is_suspicious th failed prev effective)
      (bytes_beq rs.update_mode (codes "auto_apply")) refl refl refl refl
  where
    by_tests :
        (none_old some_new suspicious auto : Bool)
        → (length prev == 0) ≡ none_old
        → ltb 0 (length effective) ≡ some_new
        → is_suspicious th failed prev effective ≡ suspicious
        → bytes_beq rs.update_mode (codes "auto_apply") ≡ auto
        → (if none_old && some_new && not suspicious
            then active
            else if auto && not suspicious
            then active
            else awaiting_approval)
          ≡ active
        → IsQuiet th failed prev effective
          × (((length prev ≡ 0) × (1 ≤ length effective))
              ⊎ (bytes_beq rs.update_mode (codes "auto_apply") ≡ true))
    by_tests true true false auto a b c d e =
        (is_suspicious-IsQuiet th failed prev effective c, inl (ground arith, ground arith))
    by_tests false n false true a b c d e =
        (is_suspicious-IsQuiet th failed prev effective c, inr d)
    by_tests true false false true a b c d e =
        (is_suspicious-IsQuiet th failed prev effective c, inr d)
    by_tests false n false false a b c d e = absurd (let k : awaiting_approval ≡ active = e in cc)
    by_tests true false false false a b c d e =
        absurd (let k : awaiting_approval ≡ active = e in cc)
    by_tests o n true auto a b c d e = absurd (ground arith)

insert_version_lem :
    (rs : RuleSet) (v : RuleSetVersion)
    → ((insert_version rs v).active_version_id
        ≡ (if is_active v.status then some v.id else rs.active_version_id))
      × ((insert_version rs v).versions
          ≡ v ∷ (if is_active v.status then supersede rs.versions else rs.versions))
unfolding insert_version
insert_version_lem rs v = by_status (is_active v.status)
  where
    by_status :
        (a : Bool)
        → let after : RuleSet =
            if a
            then record rs { versions = v ∷ supersede rs.versions; active_version_id = some v.id }
            else record rs { versions = v ∷ rs.versions } in
          (after.active_version_id ≡ (if a then some v.id else rs.active_version_id))
          × (after.versions ≡ v ∷ (if a then supersede rs.versions else rs.versions))
    by_status true = (refl, refl)
    by_status false = (refl, refl)

-- The rules of the version that the rule set points to; without one, none.
abbrev pub active_entries : RuleSet → List Entry
active_entries rs = elim rs.active_version_id [
  | none ↦ []
  | some id ↦ elim (version_of id rs.versions) [ none ↦ [] | some v ↦ v.entries ]
]

previous-active :
    (db : Database) (rs : RuleSet)
    → db.entries_unread ≡ false
    → (previous db rs).1 ≡ active_entries rs
unfolding previous
previous-active db rs e = by_id rs.active_version_id
  where
    read : (b : Bool) (l : List Entry) → b ≡ false → (if b then [] else l) ≡ l
    read true l q = cc
    read false l q = refl

    by_version :
        (o : Option RuleSetVersion)
        → (let r : Bytes × List Entry = elim o [
          | none ↦ ([], [])
          | some v ↦ (
            if db.hash_unread then [] else v.content_hash,
            if db.entries_unread then [] else v.entries,
          )
        ] in
            r.1)
          ≡ elim o as (λ _. List Entry) [ none ↦ [] | some v ↦ v.entries ]
    by_version none = refl
    by_version (some v) = read db.entries_unread v.entries e

    by_id :
        (o : Option Bytes)
        → (let r : Bytes × List Entry = elim o [
          | none ↦ ([], [])
          | some id ↦ elim (version_of id rs.versions) [
            | none ↦ ([], [])
            | some v ↦ (
              if db.hash_unread then [] else v.content_hash,
              if db.entries_unread then [] else v.entries,
            )
          ]
        ] in
            r.1)
          ≡ (elim o as (λ _. List Entry) [
            | none ↦ []
            | some id ↦ elim (version_of id rs.versions) [ none ↦ [] | some v ↦ v.entries ]
          ])
    by_id none = refl
    by_id (some id) = by_version (version_of id rs.versions)

module _ (pl : Platform) (w : World) (db : Database) (th : Thresholds) (rs : RuleSet) where
  -- If the rules of the active version can be read from the database, a build activates its version on
  -- its own only if the change is harmless, measured against them: no source failed; no more rules are
  -- new than the limit; if there were rules, no larger share of them is gone than the limit and the new
  -- list is not empty; and either there were none and the new list is not empty, or the rule set
  -- applies changes automatically.
  pub build-active :
      (r : BuildResult)
      → db.entries_unread ≡ false
      → (build pl w db th rs).0 ≡ ok r
      → r.status ≡ some active
      → let c = collected pl w db th rs in
        let prev = active_entries rs in
        let effective = effective_of pl (stored pl w db th rs) c in
        IsQuiet th c.failed_sources prev effective
        × (((length prev ≡ 0) × (1 ≤ length effective))
            ⊎ (bytes_beq rs.update_mode (codes "auto_apply") ≡ true))
  unfolding new_version
  build-active r readable done s = elim (build-Ends pl w db th rs) [
    | inl (e, o) ↦ absurd (
        let k : err e ≡ ok r =
          ap (λ (x : Result BuildError BuildResult × RuleSet). x.0) (sym o) ∙ done in
        cc)
    | inr (inl (r', s', o)) ↦ absurd (
        let k : r' ≡ r =
          ok-inj (ap (λ (x : Result BuildError BuildResult × RuleSet). x.0) (sym o) ∙ done) in
        let l : none ≡ some active = sym s' ∙ ap (λ (x : BuildResult). x.status) k ∙ s in cc)
    | inr (inr (r', s', i, o)) ↦
        let read_back = previous-active db (stored pl w db th rs) readable in
        let k : r' ≡ r =
          ok-inj (ap (λ (x : Result BuildError BuildResult × RuleSet). x.0) (sym o) ∙ done) in
        let l : some (candidate pl w db th rs).status ≡ some active =
          sym s' ∙ ap (λ (x : BuildResult). x.status) k ∙ s in
        let chosen : (candidate pl w db th rs).status ≡ active = cc in
        let c = collected pl w db th rs in
        let effective = effective_of pl (stored pl w db th rs) c in
        subst
          (λ (prev : List Entry).
            IsQuiet th c.failed_sources prev effective
            × (((length prev ≡ 0) × (1 ≤ length effective))
                ⊎ (bytes_beq rs.update_mode (codes "auto_apply") ≡ true)))
          read_back (decide-active (stored pl w db th rs) th _ _ _ chosen)
  ]

  -- What a build leaves alone: with an error, or a status other than active, the rule set points to the
  -- same version as before; with an error or an unchanged list, it has the same versions; and a version
  -- that awaits approval is added to them.
  abbrev pub Spares : Result BuildError BuildResult × RuleSet → Type 0
  Spares (err e, rs') =
      (rs'.versions ≡ rs.versions) × (rs'.active_version_id ≡ rs.active_version_id)
  Spares (ok r, rs') = elim r.status [
    | none ↦ (rs'.versions ≡ rs.versions) × (rs'.active_version_id ≡ rs.active_version_id)
    | some st ↦
        (v : RuleSetVersion) × (v.id ≡ r.version_id)
        × (v.status ≡ st)
        × (rs'.active_version_id ≡ (if is_active st then some v.id else rs.active_version_id))
        × (rs'.versions ≡ v ∷ (if is_active st then supersede rs.versions else rs.versions))
  ]

  -- A build that fails, or finds the list unchanged, leaves the versions and the active one as they
  -- were. Any other puts one version, with the ID and status of its result, in front of the versions: an active
  -- one is then pointed to and supersedes the others, one that awaits approval changes nothing else.
  pub build-Spares : Spares (build pl w db th rs)
  build-Spares = elim (build-Ends pl w db th rs) [
    | inl (e, o) ↦ subst Spares (sym o) (refl, refl)
    | inr (inl (r', s', o)) ↦ subst Spares (sym o) (rw s' (refl, refl))
    | inr (inr (r', s', i, o)) ↦
        let (same_id, same_versions) =
          insert_version_lem (stored pl w db th rs) (candidate pl w db th rs) in
        subst Spares (sym o) (rw s' (candidate pl w db th rs, sym i, refl, same_id, same_versions))
  ]
