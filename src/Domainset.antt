-- ===== src/Domainset.antt =====
-- shared/domainset/domainset.go: rules and host names.
pub mod Host
pub mod Parse
pub mod Rules
pub mod Matcher
use smart_dns_proxy.Prelude.{
  ◌≡◌, refl, Bool, true, false, ◌&&◌, ◌||◌, ◌↔◌, Eq, Bytes, codes, bytes_lt, bytes_beq,
  bytes_beq_iff, bytes_lt_irrefl, bytes_lt_asymm, arith,
}

pub data Kind : Type 0 where
  exact suffix regex : Kind

-- The string behind each constant, by which kinds are ordered.
abbrev pub kind_text : Kind → Bytes
kind_text exact = codes "exact"
kind_text suffix = codes "suffix"
kind_text regex = codes "regex"

pub record Entry : Type 0 where
  pub kind : Kind
  pub value : Bytes

abbrev pub kind_beq : Kind → Kind → Bool
kind_beq exact exact = true
kind_beq suffix suffix = true
kind_beq regex regex = true
kind_beq _ _ = false

abbrev pub entry_beq : Entry → Entry → Bool
entry_beq a b = kind_beq a.kind b.kind && bytes_beq a.value b.value

kind_beq→eq : (k l : Kind) → kind_beq k l ≡ true → k ≡ l
kind_beq→eq exact exact h = refl
kind_beq→eq suffix suffix h = refl
kind_beq→eq regex regex h = refl
kind_beq→eq _ _ h = cc

kind_beq_refl : (k : Kind) → kind_beq k k ≡ true
kind_beq_refl exact = refl
kind_beq_refl suffix = refl
kind_beq_refl regex = refl

pub entry_beq_iff : (a b : Entry) → (entry_beq a b ≡ true) ↔ (a ≡ b)
entry_beq_iff a b = (
  λ h. ground (arith, kind_beq→eq a.kind b.kind, (bytes_beq_iff a.value b.value).0),
  λ e. rw e (ground (arith, kind_beq_refl b.kind, (bytes_beq_iff b.value b.value).1 refl)),
)

instance abbrev pub entry_eq : Eq Entry
entry_eq = record { beq = entry_beq; beq_iff = entry_beq_iff }

-- The `less` of `Sort`: by kind, then by value.
abbrev pub entry_lt : Entry → Entry → Bool
entry_lt a b =
    bytes_lt (kind_text a.kind) (kind_text b.kind)
    || (kind_beq a.kind b.kind && bytes_lt a.value b.value)

pub entry_lt_asymm : (a b : Entry) → entry_lt a b ≡ true → entry_lt b a ≡ false
entry_lt_asymm a b h = by_kind a.kind b.kind h
  where
    by_kind :
        (k l : Kind)
        → (bytes_lt (kind_text k) (kind_text l) || (kind_beq k l && bytes_lt a.value b.value))
          ≡ true
        → (bytes_lt (kind_text l) (kind_text k) || (kind_beq l k && bytes_lt b.value a.value))
          ≡ false
    by_kind exact exact h = bytes_lt_asymm a.value b.value h
    by_kind suffix suffix h = bytes_lt_asymm a.value b.value h
    by_kind regex regex h = bytes_lt_asymm a.value b.value h
    by_kind exact suffix h = refl
    by_kind exact regex h = refl
    by_kind regex suffix h = refl
    by_kind _ _ h = cc
