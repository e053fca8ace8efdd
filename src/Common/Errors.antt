-- ===== src/Common/Errors.antt =====
-- A call that may throw. The value of `err` is the text of the `std::runtime_error`, without the
-- names and numbers that the source appends to it.
use Prim.Native.String.{String}
use mathlib.Core.Bool.{Bool, true, false}
use mathlib.Core.Option.{Option, none, some}
use mathlib.Core.Path.{◌≡◌, refl, ap}
use mathlib.Core.Logic.{◌⊎◌, inl, inr}

pub data Result {ℓ} (A : Type ℓ) : Type ℓ where
  err : String → Result A
  ok : A → Result A

-- The rest of a body after a call: it runs on the call's value unless the call has thrown.
infixl 5 ◌>>=◌
abbrev pub ◌>>=◌ {ℓ ℓ'} :
    {Value : Type ℓ} {Body : Type ℓ'} → Result Value → (Value → Result Body) → Result Body
err thrown >>= body = err thrown
ok value >>= body = body value

-- The same behind a call without a value.
infixl 5 ◌>>◌
abbrev pub ◌>>◌ {ℓ} : {Body : Type ℓ} → Result (Unit {0}) → Result Body → Result Body
err thrown >> body = err thrown
ok done >> body = body

-- `if (!c) throw`.
abbrev pub check : Bool → String → Result (Unit {0})
check true e = ok tt
check false e = err e

-- `if (c) throw`.
abbrev pub throw_if : Bool → String → Result (Unit {0})
throw_if false e = ok tt
throw_if true e = err e

-- A lookup that must succeed.
abbrev pub or_throw {ℓ} : {A : Type ℓ} → Option A → String → Result A
or_throw none e = err e
or_throw (some a) e = ok a

pub Result-cases {ℓ} :
    {A : Type ℓ} (r : Result A) → ((a : A) × (r ≡ ok a)) ⊎ ((e : String) × (r ≡ err e))
Result-cases (ok a) = inl (a, refl)
Result-cases (err e) = inr (e, refl)

-- A body that returns has had a call that returned.
pub >>=-eq-ok {ℓ ℓ'} :
    {Value : Type ℓ} {Body : Type ℓ'} (call : Result Value) (body : Value → Result Body)
    {returned : Body}
    → (call >>= body) ≡ ok returned
    → (value : Value) × (call ≡ ok value) × (body value ≡ ok returned)
>>=-eq-ok (err thrown) body h = cc
>>=-eq-ok (ok value) body h = (value, refl, h)

result_or {ℓ} : {A : Type ℓ} → A → Result A → A
result_or d (ok a) = a
result_or d (err e) = d

pub ok-injective {ℓ} : {A : Type ℓ} {a b : A} → ok a ≡ ok b → a ≡ b
unfolding result_or
ok-injective {a = a} h = ap (result_or a) h
