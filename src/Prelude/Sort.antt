-- ===== src/Prelude/Sort.antt =====
-- `sort.SliceStable` by insertion, over the `less` that the caller gives.
use mathlib.Core.List.{Perm}
use mathlib.Core.List.Perm
use mathlib.Core.Path.{◌≡◌, refl, sym, ap, ◌∙◌}
use Prim.Native.Nat.{suc}
use mathlib.Core.Bool.{Bool, true, false, ◌||◌}
use mathlib.Core.Logic.{inl, inr}
use mathlib.Core.List.{List, [], ◌∷◌}
use native.Mathlib.Omega.{arith}
use smart_dns_proxy.Prelude.Tests.{if◌then◌else◌, Bool-cases, Eq, eq_of_iff}
use smart_dns_proxy.Prelude.Lists.{All, elem, nodup, length}

module _ {ℓ} {A : Type ℓ} (less : A → A → Bool) where
  abbrev pub insert : A → List A → List A
  insert x [] = x ∷ []
  insert x (y ∷ ys) = if less y x then y ∷ insert x ys else x ∷ y ∷ ys

  abbrev pub sort : List A → List A
  sort [] = []
  sort (x ∷ xs) = insert x (sort xs)

  -- No element is less than the one before it.
  abbrev pub IsSorted : List A → Type 0
  IsSorted [] = Unit
  IsSorted (x ∷ []) = Unit
  IsSorted (x ∷ y ∷ ys) = (less y x ≡ false) × IsSorted (y ∷ ys)

module _ {ℓ} {A : Type ℓ} (less : A → A → Bool) where
  pub insert-perm : (x : A) (ys : List A) → Perm (insert less x ys) (x ∷ ys)
  insert-perm x [] = Perm.refl (x ∷ [])
  insert-perm x (y ∷ ys) =
      elim (less y x) as (λ b. Perm (if b then y ∷ insert less x ys else x ∷ y ∷ ys) (x ∷ y ∷ ys)) [
        | true ↦ Perm.trans (Perm.cons y (insert-perm x ys)) (Perm.swap x y ys)
        | false ↦ Perm.refl (x ∷ y ∷ ys)
      ]

  pub sort-perm : (xs : List A) → Perm (sort less xs) xs
  sort-perm [] = Perm.refl []
  sort-perm (x ∷ xs) = Perm.trans (insert-perm x (sort less xs)) (Perm.cons x (sort-perm xs))

  pub length-sort : (xs : List A) → length (sort less xs) ≡ length xs
  length-sort [] = refl
  length-sort (x ∷ xs) = length-insert x (sort less xs) ∙ ap suc (length-sort xs)
    where
      length-insert : (x : A) (ys : List A) → length (insert less x ys) ≡ suc (length ys)
      length-insert x [] = refl
      length-insert x (y ∷ ys) =
          elim (less y x)
            as (λ b.
              length (if b then y ∷ insert less x ys else x ∷ y ∷ ys) ≡ suc (suc (length ys))) [
                | true ↦ ap suc (length-insert x ys)
                | false ↦ refl
              ]

  pub All-insert {κ} :
      (P : A → Type κ) (x : A) (ys : List A) → P x → All P ys → All P (insert less x ys)
  All-insert P x [] px h = (px, h)
  All-insert P x (y ∷ ys) px h =
      elim (less y x) as (λ b. All P (if b then y ∷ insert less x ys else x ∷ y ∷ ys)) [
        | true ↦ (h.0, All-insert P x ys px h.1)
        | false ↦ (px, h)
      ]

  pub All-sort {κ} : (P : A → Type κ) (xs : List A) → All P xs → All P (sort less xs)
  All-sort P [] h = h
  All-sort P (x ∷ xs) h = All-insert P x (sort less xs) h.0 (All-sort P xs h.1)

module _ {ℓ} {A : Type ℓ} (less : A → A → Bool)
    (asymm : (x y : A) → less x y ≡ true → less y x ≡ false) where
  insert-IsSorted : (x : A) (ys : List A) → IsSorted less ys → IsSorted less (insert less x ys)
  insert-IsSorted x [] h = tt
  insert-IsSorted x (y ∷ []) h = elim (Bool-cases (less y x)) [
    | inl below ↦ rw below (asymm y x below, tt)
    | inr above ↦ rw above (above, tt)
  ]
  insert-IsSorted x (y ∷ z ∷ zs) h = elim (Bool-cases (less y x)) [
    | inr above ↦ rw above (above, h)
    | inl below ↦ rw below (elim (Bool-cases (less z x)) [
      | inl deeper ↦
          let rest : IsSorted less (insert less x (z ∷ zs)) = insert-IsSorted x (z ∷ zs) h.1 in
          rw deeper (h.0, rw deeper at rest)
      | inr here ↦ rw here (asymm y x below, (here, h.1))
    ])
  ]

  pub sort-IsSorted : (xs : List A) → IsSorted less (sort less xs)
  sort-IsSorted [] = tt
  sort-IsSorted (x ∷ xs) = insert-IsSorted x (sort less xs) (sort-IsSorted xs)

module _ {ℓ} {A : Type ℓ} ⦃e : Eq A⦄ (less : A → A → Bool) where
  pub elem-insert : (a x : A) (ys : List A) → elem a (insert less x ys) ≡ (e.beq a x || elem a ys)
  elem-insert a x [] = refl
  elem-insert a x (y ∷ ys) = ground (arith, elem-insert a x ys)

  pub elem-sort : (a : A) (xs : List A) → elem a (sort less xs) ≡ elem a xs
  elem-sort a [] = refl
  elem-sort a (x ∷ xs) = ground (arith, elem-insert a x (sort less xs), elem-sort a xs)

  nodup-insert : (x : A) (ys : List A) → nodup (insert less x ys) ≡ nodup (x ∷ ys)
  nodup-insert x [] = refl
  nodup-insert x (y ∷ ys) = elim (Bool-cases (less y x)) [
    | inl below ↦ rw below (ground (arith, elem-insert y x ys, nodup-insert x ys, beq_comm x y))
    | inr above ↦ rw above
  ]
    where
      beq_comm : (a b : A) → e.beq a b ≡ e.beq b a
      beq_comm a b =
          eq_of_iff (e.beq a b) (e.beq b a) (λ h. (e.beq_iff b a).1 (sym ((e.beq_iff a b).0 h)))
            (λ h. (e.beq_iff a b).1 (sym ((e.beq_iff b a).0 h)))

  pub nodup-sort : (xs : List A) → nodup (sort less xs) ≡ nodup xs
  nodup-sort [] = refl
  nodup-sort (x ∷ xs) =
      nodup-insert x (sort less xs) ∙ ground (arith, elem-sort x xs, nodup-sort xs)
