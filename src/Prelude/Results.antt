-- ===== src/Prelude/Results.antt =====
-- Go's `(value, error)`: a value, or an error of the caller's type.
use mathlib.Core.Bool.{Bool, true, false}
use smart_dns_proxy.Prelude.Tests.{if◌then◌else◌}
use mathlib.Core.Path.{◌≡◌, refl}
use mathlib.Core.Option.{Option, none, some}

pub data Result (E A : Type 0) : Type 0 where
  ok : A → Result E A
  err : E → Result E A

infixl 5 ◌>>=◌
abbrev pub ◌>>=◌ : {E A B : Type 0} → Result E A → (A → Result E B) → Result E B
ok value >>= next = next value
err failure >>= next = err failure

abbrev pub or_else : {E A : Type 0} → Option A → E → Result E A
or_else (some a) e = ok a
or_else none e = err e

-- A chain succeeds only if its first call does, and what follows does on its result.
pub >>=-eq-ok :
    {E A B : Type 0} (call : Result E A) (next : A → Result E B) {out : B}
    → (call >>= next) ≡ ok out
    → (value : A) × (call ≡ ok value) × (next value ≡ ok out)
>>=-eq-ok (ok value) next passed = (value, refl, passed)
>>=-eq-ok (err failure) next passed = cc

pub ok-inj : {E A : Type 0} {a b : A} → ◌≡◌ {A = Result E A} (ok a) (ok b) → a ≡ b
ok-inj q = cc

-- An early return of an error was not taken.
pub guard-ok :
    {E A : Type 0} (b : Bool) (e : E) (a c : A) → (if b then err e else ok a) ≡ ok c → a ≡ c
guard-ok true e a c q = cc
guard-ok false e a c q = cc
