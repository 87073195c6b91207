-- ===== src/Prelude/Lists.antt =====
-- Lists measured and indexed by native numbers, membership as a test, predicates on all elements.
use Prim.Native.Nat.{ℕ, zero, suc, ◌+◌, ◌-◌, ◌≤◌}
use mathlib.Core.Path.{◌≡◌, refl, ap}
use mathlib.Core.Logic.{inl, inr}
use mathlib.Core.Bool.{Bool, true, false, not, ◌&&◌, ◌||◌}
use mathlib.Core.List.{List, [], ◌∷◌, ◌++◌}
use native.Mathlib.Omega.{arith}
use smart_dns_proxy.Prelude.Tests.{Eq, if◌then◌else◌, Bool-cases, beq_refl}

module _ {ℓ} {A : Type ℓ} where
  abbrev pub length : List A → ℕ
  length [] = 0
  length (x ∷ xs) = suc (length xs)

  abbrev pub is_empty : List A → Bool
  is_empty [] = true
  is_empty (x ∷ xs) = false

  abbrev pub get_or : List A → ℕ → A → A
  get_or [] i d = d
  get_or (x ∷ xs) zero d = x
  get_or (x ∷ xs) (suc i) d = get_or xs i d

  abbrev pub take : ℕ → List A → List A
  take zero xs = []
  take (suc n) [] = []
  take (suc n) (x ∷ xs) = x ∷ take n xs

  abbrev pub drop : ℕ → List A → List A
  drop zero xs = xs
  drop (suc n) [] = []
  drop (suc n) (x ∷ xs) = drop n xs

  -- The elements that pass a test.
  abbrev pub keep : (A → Bool) → List A → List A
  keep p [] = []
  keep p (x ∷ xs) = if p x then x ∷ keep p xs else keep p xs

  abbrev pub any : (A → Bool) → List A → Bool
  any p [] = false
  any p (x ∷ xs) = p x || any p xs

  abbrev pub all : (A → Bool) → List A → Bool
  all p [] = true
  all p (x ∷ xs) = p x && all p xs

  pub length-append : (xs ys : List A) → length (xs ++ ys) ≡ length xs + length ys
  length-append [] ys = omega arith
  length-append (x ∷ xs) ys = omega (arith, length-append xs ys)

  pub take-append-drop : (n : ℕ) (xs : List A) → take n xs ++ drop n xs ≡ xs
  take-append-drop zero xs = refl
  take-append-drop (suc n) [] = refl
  take-append-drop (suc n) (x ∷ xs) = ap (λ l. x ∷ l) (take-append-drop n xs)

  pub take-append : (xs ys : List A) → take (length xs) (xs ++ ys) ≡ xs
  take-append [] ys = refl
  take-append (x ∷ xs) ys = ap (λ l. x ∷ l) (take-append xs ys)

  pub drop-append : (xs ys : List A) → drop (length xs) (xs ++ ys) ≡ ys
  drop-append [] ys = refl
  drop-append (x ∷ xs) ys = drop-append xs ys

  pub length-take : (n : ℕ) (xs : List A) → n ≤ length xs → length (take n xs) ≡ n
  length-take zero xs h = refl
  length-take (suc n) [] h = omega arith
  length-take (suc n) (x ∷ xs) h = omega (arith, length-take n xs)

  pub length-drop : (n : ℕ) (xs : List A) → length (drop n xs) ≡ length xs - n
  length-drop zero xs = omega arith
  length-drop (suc n) [] = omega arith
  length-drop (suc n) (x ∷ xs) = omega (arith, length-drop n xs)

  pub length-keep-le : (p : A → Bool) (xs : List A) → length (keep p xs) ≤ length xs
  length-keep-le p [] = omega arith
  length-keep-le p (x ∷ xs) = ground (arith, length-keep-le p xs)

-- A predicate by recursion computes to tuples, which the tactics read and build.
module _ {ℓ κ} {A : Type ℓ} where
  abbrev pub All : (A → Type κ) → List A → Type κ
  All P [] = Unit
  All P (x ∷ xs) = P x × All P xs

  pub All-append : (P : A → Type κ) (xs ys : List A) → All P xs → All P ys → All P (xs ++ ys)
  All-append P [] ys hx hy = hy
  All-append P (x ∷ xs) ys hx hy = (hx.0, All-append P xs ys hx.1 hy)

  pub All-keep : (P : A → Type κ) (p : A → Bool) (xs : List A) → All P xs → All P (keep p xs)
  All-keep P p [] h = h
  All-keep P p (x ∷ xs) h = elim (p x) as (λ b. All P (if b then x ∷ keep p xs else keep p xs)) [
    | true ↦ (h.0, All-keep P p xs h.1)
    | false ↦ All-keep P p xs h.1
  ]

module _ {ℓ} {A : Type ℓ} ⦃e : Eq A⦄ where
  abbrev pub elem : A → List A → Bool
  elem a [] = false
  elem a (x ∷ xs) = e.beq a x || elem a xs

  -- No element occurs twice.
  abbrev pub nodup : List A → Bool
  nodup [] = true
  nodup (x ∷ xs) = not (elem x xs) && nodup xs

  pub elem-append : (a : A) (xs ys : List A) → elem a (xs ++ ys) ≡ (elem a xs || elem a ys)
  elem-append a [] ys = refl
  elem-append a (x ∷ xs) ys = ground (arith, elem-append a xs ys)

  pub elem-keep : (a : A) (p : A → Bool) (xs : List A) → elem a (keep p xs) ≡ (elem a xs && p a)
  elem-keep a p [] = refl
  elem-keep a p (x ∷ xs) = elim (Bool-cases (e.beq a x)) [
    | inl same ↦ ground (arith, elem-keep a p xs, ap p ((e.beq_iff a x).0 same))
    | inr other ↦ ground (arith, elem-keep a p xs)
  ]

  pub All-elem {κ} : (P : A → Type κ) (xs : List A) → ((a : A) → elem a xs ≡ true → P a) → All P xs
  All-elem P [] h = tt
  All-elem P (x ∷ xs) h =
      (h x (ground (arith, beq_refl x)), All-elem P xs (λ a m. h a (ground arith)))

  pub elem-All {κ} : (P : A → Type κ) (xs : List A) (a : A) → All P xs → elem a xs ≡ true → P a
  elem-All P [] a h m = absurd (false_true m)
    where
      false_true : ◌≡◌ {A = Bool} false true → ⊥
      false_true q = cc
  elem-All P (x ∷ xs) a h m = elim (Bool-cases (e.beq a x)) [
    | inl same ↦ let q : a ≡ x = (e.beq_iff a x).0 same in rw q h.0
    | inr other ↦ elem-All P xs a h.1 (ground arith)
  ]

-- A Go `switch` with a condition for each case: the first that holds, or the default.
abbrev pub switch {ℓ} : {A : Type ℓ} → List (Bool × A) → A → A
switch [] d = d
switch ((test, a) ∷ cases) d = if test then a else switch cases d

pub switch-All {ℓ κ} :
    {A : Type ℓ} (P : A → Type κ) (cases : List (Bool × A)) (d : A)
    → All (λ c. P (c.1)) cases
    → P d
    → P (switch cases d)
switch-All P [] d h k = k
switch-All P ((true, a) ∷ cases) d h k = h.0
switch-All P ((false, a) ∷ cases) d h k = switch-All P cases d h.1 k
