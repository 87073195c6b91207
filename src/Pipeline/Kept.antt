-- ===== src/Pipeline/Kept.antt =====
-- The versions of a rule set over the steps of panel/internal/rules/pipeline.go.
use smart_dns_proxy.Prelude.{
  ℕ, ◌<◌, ◌≡◌, refl, sym, ap, ◌∙◌, ◌⊎◌, inl, inr, Bool, true, false, not, ◌&&◌, ◌||◌, Option, none,
  some, List, [], ◌∷◌, map, arith, if◌then◌else◌, nat_eq, is_empty, All, elem, nodup, Bytes,
  bytes_beq, bytes_beq_refl, bytes_beq_iff, bytes_eq, Result, ok, err,
}
use mathlib.Core.Path.{subst}
use smart_dns_proxy.Platform.{Platform}
use smart_dns_proxy.Pipeline.{
  Status, superseded, is_active, RuleSetVersion, RuleSet, Thresholds, World, Database,
}
use smart_dns_proxy.Pipeline.Build.{
  BuildError, BuildResult, all_sources_failed, database_error, collect, nothing_yet, previous,
  last_sequence, supersede, insert_version, effective_of, none_usable, new_version, build,
  Collected,
}
use smart_dns_proxy.Pipeline.Approve.{set_status}

abbrev points : Option Bytes → Bytes → Bool
points none id = false
points (some i) id = bytes_beq i id

-- A version that is active is the one that the rule set points to.
abbrev pub Pointed : Option Bytes → RuleSetVersion → Type 0
Pointed active_id v = (not (is_active v.status) || points active_id v.id) ≡ true

-- Every active version is the one that the rule set points to, and no two versions have the same
-- sequence number.
abbrev pub IsConsistent : RuleSet → Type 0
IsConsistent rs =
    All (λ v. (not (is_active v.status) || points rs.active_version_id v.id) ≡ true) rs.versions
    × (nodup (map (λ v. v.sequence) rs.versions) ≡ true)

module _ (active_id : Option Bytes) where
  pub supersede-Pointed : (vs : List RuleSetVersion) → All (Pointed active_id) (supersede vs)
  unfolding supersede
  supersede-Pointed [] = tt
  supersede-Pointed (v ∷ vs) = (by_status (is_active v.status) refl, supersede-Pointed vs)
    where
      by_status :
          (a : Bool)
          → is_active v.status ≡ a
          → Pointed active_id (if a then record v { status = superseded } else v)
      by_status true e = refl
      by_status false e = rw e refl

  pub set_status-Pointed :
      (id : Bytes) (status : Status) (vs : List RuleSetVersion)
      → (not (is_active status) || points active_id id) ≡ true
      → All (Pointed active_id) vs
      → All (Pointed active_id) (set_status id status vs)
  unfolding set_status
  set_status-Pointed id status [] p h = tt
  set_status-Pointed id status (v ∷ vs) p (k, h) =
      (by_id (bytes_beq v.id id) refl, set_status-Pointed id status vs p h)
    where
      by_id :
          (same : Bool)
          → bytes_beq v.id id ≡ same
          → Pointed active_id (if same then record v { status = status } else v)
      by_id true e =
          let q : v.id ≡ id = (bytes_beq_iff v.id id).0 e in
          subst (λ i. (not (is_active status) || points active_id i) ≡ true) (sym q) p
      by_id false e = k

sequences : List RuleSetVersion → List ℕ
sequences vs = map (λ (v : RuleSetVersion). v.sequence) vs

pub supersede-sequences :
    (vs : List RuleSetVersion)
    → map (λ (v : RuleSetVersion). v.sequence) (supersede vs)
      ≡ map (λ (v : RuleSetVersion). v.sequence) vs
unfolding supersede
supersede-sequences [] = refl
supersede-sequences (v ∷ vs) =
    let same : (if is_active v.status then record v { status = superseded } else v).sequence
        ≡ v.sequence =
      ground arith in
    ap (λ n. n ∷ map (λ (v : RuleSetVersion). v.sequence) (supersede vs)) same
    ∙ ap (λ ns. v.sequence ∷ ns) (supersede-sequences vs)

pub set_status-sequences :
    (id : Bytes) (status : Status) (vs : List RuleSetVersion)
    → map (λ (v : RuleSetVersion). v.sequence) (set_status id status vs)
      ≡ map (λ (v : RuleSetVersion). v.sequence) vs
unfolding set_status
set_status-sequences id status [] = refl
set_status-sequences id status (v ∷ vs) =
    let same : (if bytes_beq v.id id then record v { status = status } else v).sequence
        ≡ v.sequence =
      ground arith in
    ap (λ n. n ∷ map (λ (v : RuleSetVersion). v.sequence) (set_status id status vs)) same
    ∙ ap (λ ns. v.sequence ∷ ns) (set_status-sequences id status vs)

-- the next sequence number is that of no version
last_sequence-fresh :
    (vs : List RuleSetVersion) (n : ℕ)
    → last_sequence vs < n
    → elem n (map (λ (v : RuleSetVersion). v.sequence) vs) ≡ false
unfolding last_sequence
last_sequence-fresh [] n h = refl
last_sequence-fresh (v ∷ vs) n h = ground (arith, last_sequence-fresh vs n (ground arith))

insert_version-IsConsistent :
    (rs : RuleSet) (v : RuleSetVersion)
    → last_sequence rs.versions < v.sequence
    → IsConsistent rs
    → IsConsistent (insert_version rs v)
unfolding insert_version
insert_version-IsConsistent rs v next (h, unique) = by_status (is_active v.status) refl
  where
    fresh : elem v.sequence (map (λ (v : RuleSetVersion). v.sequence) rs.versions) ≡ false
    fresh = last_sequence-fresh rs.versions v.sequence next

    by_status :
        (a : Bool)
        → is_active v.status ≡ a
        → IsConsistent (
            if a
            then record rs { versions = v ∷ supersede rs.versions; active_version_id = some v.id }
            else record rs { versions = v ∷ rs.versions })
    by_status true e = (
      (rw (e, bytes_beq_refl v.id) refl, supersede-Pointed (some v.id) rs.versions),
      rw (supersede-sequences rs.versions, fresh, unique) refl,
    )
    by_status false e = ((rw e refl, h), rw (fresh, unique) refl)

module _ (pl : Platform) (w : World) (db : Database) (th : Thresholds) (rs0 : RuleSet) where
  -- what the sources gave, the rule set with the sources as stored, and the row to write
  abbrev pub collected : Collected
  collected = (collect pl w rs0.allow_regex rs0.sources nothing_yet).0

  abbrev pub stored : RuleSet
  stored = record rs0 { sources = (collect pl w rs0.allow_regex rs0.sources nothing_yet).1 }

  abbrev pub candidate : RuleSetVersion
  candidate = new_version w db th stored collected.failed_sources (effective_of pl stored collected)

  -- A build failed, found nothing new, or wrote the candidate.
  abbrev pub Ends : Result BuildError BuildResult × RuleSet → Type 0
  Ends o =
      ((e : BuildError) × (o ≡ (err e, stored)))
      ⊎ ((r : BuildResult) × (r.status ≡ none) × (o ≡ (ok r, stored)))
      ⊎ ((r : BuildResult) × (r.status ≡ some candidate.status)
          × (r.version_id ≡ candidate.id)
          × (o ≡ (ok r, insert_version stored candidate)))

  pub build-Ends : Ends (build pl w db th rs0)
  unfolding build
  build-Ends =
      by_end (none_usable pl stored collected)
        (not (is_empty (previous db stored).0)
          && bytes_beq (previous db stored).0 candidate.content_hash)
        db.write_fails _ _ refl refl refl
    where
      by_end :
          (failed same broken : Bool) (r1 r2 : BuildResult)
          → r1.status ≡ none
          → r2.status ≡ some candidate.status
          → r2.version_id ≡ candidate.id
          → Ends (
              if failed
              then (err all_sources_failed, stored)
              else if same
              then (ok r1, stored)
              else if broken
              then (err database_error, stored)
              else (ok r2, insert_version stored candidate))
      by_end true same broken r1 r2 e f g = inl (all_sources_failed, refl)
      by_end false true broken r1 r2 e f g = inr (inl (r1, e, refl))
      by_end false false true r1 r2 e f g = inl (database_error, refl)
      by_end false false false r1 r2 e f g = inr (inr (r2, f, g, refl))

  pub build-IsConsistent : IsConsistent rs0 → IsConsistent (build pl w db th rs0).1
  unfolding new_version
  build-IsConsistent h = elim build-Ends [
    | inl (e, o) ↦ rw o h
    | inr (inl (r, s, o)) ↦ rw o h
    | inr (inr (r, s, i, o)) ↦ rw o (insert_version-IsConsistent stored candidate (omega arith) h)
  ]
