-- ===== src/Agent/Files.antt =====
-- What the writes and the pruning of agent/internal/agentcore/agent.go leave on the disk.
use smart_dns_proxy.Prelude.{
  ℕ, ◌≡◌, refl, ◌∙◌, inl, inr, Bool, true, false, ◌||◌, none, some, List, [], ◌∷◌, arith,
  Bool-cases, nat_eq, keep, Bytes, bytes_beq, bytes_beq_refl, bytes_beq_iff, bytes_eq,
}
use smart_dns_proxy.Agent.{State, Revision, config_of, make_dir, write_file, write_config}
use smart_dns_proxy.Agent.Apply.{Faults, prune, half_written}

make_dir-other :
    (now : ℕ) (id j : Bytes) (rs : List Revision)
    → bytes_beq id j ≡ false
    → config_of j (make_dir now id rs) ≡ config_of j rs
unfolding config_of make_dir
make_dir-other now id j [] h = rw h refl
make_dir-other now id j (r ∷ rs) h = ground (arith, make_dir-other now id j rs h)

write_file-other :
    (id j raw : Bytes) (rs : List Revision)
    → bytes_beq id j ≡ false
    → config_of j (write_file id raw rs) ≡ config_of j rs
unfolding config_of write_file
write_file-other id j raw [] h = refl
write_file-other id j raw (r ∷ rs) h = ground (
  arith,
  write_file-other id j raw rs h,
  bytes_beq_iff r.name id,
  bytes_beq_iff r.name j,
  bytes_beq_iff id j,
)

pub write_config-other :
    (now : ℕ) (id j raw : Bytes) (rs : List Revision)
    → bytes_beq id j ≡ false
    → config_of j (write_config now id raw rs) ≡ config_of j rs
unfolding write_config
write_config-other now id j raw rs h =
    write_file-other id j raw (make_dir now id rs) h ∙ make_dir-other now id j rs h

pub write_config-same :
    (now : ℕ) (id raw : Bytes) (rs : List Revision)
    → config_of id (write_config now id raw rs) ≡ some raw
unfolding config_of write_config make_dir write_file
write_config-same now id raw [] = rw (bytes_beq_refl id) (rw (bytes_beq_refl id) refl)
write_config-same now id raw (r ∷ rs) = elim (Bool-cases (bytes_beq r.name id)) [
  | inl same ↦ rw same (rw same (rw same refl))
  | inr other ↦ rw other (rw other (rw other (write_config-same now id raw rs)))
]

pub half_written-other :
    (f : Faults) (now : ℕ) (id j : Bytes) (rs : List Revision)
    → bytes_beq id j ≡ false
    → config_of j (half_written f now id rs) ≡ config_of j rs
unfolding half_written
half_written-other f now id j rs h =
    elim f.left
      as (λ o.
        config_of j (
          (elim o as (λ _. List Revision) [
            | none ↦ make_dir now id rs
            | some bytes ↦ write_config now id bytes rs
          ]))
        ≡ config_of j rs) [
          | none ↦ make_dir-other now id j rs h
          | some bytes ↦ write_config-other now id j bytes rs h
        ]

config_of-keep :
    (p : Revision → Bool) (id : Bytes) (rs : List Revision)
    → ((r : Revision) → bytes_beq r.name id ≡ true → p r ≡ true)
    → config_of id (keep p rs) ≡ config_of id rs
unfolding config_of
config_of-keep p id [] h = refl
config_of-keep p id (r ∷ rs) h = elim (Bool-cases (bytes_beq r.name id)) [
  | inl same ↦ rw (h r same) (rw same refl)
  | inr other ↦ ground (arith, config_of-keep p id rs h)
]

-- A revision that the state protects is still there, with its config.
pub prune-protected :
    (n : ℕ) (st : State) (rs : List Revision) (id : Bytes)
    → (bytes_beq id st.applied_revision_id || bytes_beq id st.previous_revision) ≡ true
    → config_of id (prune n st rs) ≡ config_of id rs
unfolding prune
prune-protected n st rs id h =
    config_of-keep _ id rs
      (λ r same. let e : r.name ≡ id = (bytes_beq_iff r.name id).0 same in rw e (rw h refl))
