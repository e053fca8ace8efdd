-- ===== src/Calls.antt =====
-- A method of a session: it changes the state it is called on, and may throw. What it had changed
-- before it throws stays.
use history_tools.Common.{◌≡◌, refl, ap, Bool, true, false, Result, ok, err, String}

abbrev pub Method {ℓ κ} : Type ℓ → Type κ → Type (ℓ ⊔ κ)
Method S A = S → Result A × S

module _ {S : Type 0} where
  abbrev pub return {ℓ} : {A : Type ℓ} → A → Method S A
  return value st = (ok value, st)

  abbrev pub throw {ℓ} : {A : Type ℓ} → String → Method S A
  throw e st = (err e, st)

  abbrev pub throw_unless : Bool → String → Method S (Unit {0})
  throw_unless true e st = (ok tt, st)
  throw_unless false e st = (err e, st)

  -- A call that changes nothing of the state.
  abbrev pub pass {ℓ} : {A : Type ℓ} → Result A → Method S A
  pass r st = (r, st)

  -- What stands behind a call, from the call's outcome.
  abbrev pub continue {ℓ κ} :
      {A : Type ℓ} {B : Type κ} → (A → Method S B) → Result A × S → Result B × S
  continue rest (err e, st) = (err e, st)
  continue rest (ok value, st) = rest value st

  infixl 5 ◌>>=◌
  abbrev pub ◌>>=◌ {ℓ κ} : {A : Type ℓ} {B : Type κ} → Method S A → (A → Method S B) → Method S B
  ◌>>=◌ call rest st = continue rest (call st)

  infixl 5 ◌>>◌
  abbrev pub ◌>>◌ {ℓ} : {B : Type ℓ} → Method S (Unit {0}) → Method S B → Method S B
  ◌>>◌ call rest st = continue (λ _. rest) (call st)

  -- What is read of the state, and a change of it.
  abbrev pub gets {ℓ} : {A : Type ℓ} → (S → A) → Method S A
  gets f st = (ok (f st), st)

  abbrev pub modify : (S → S) → Method S (Unit {0})
  modify f st = (ok tt, f st)

  -- What a call that returned was made of.
  pub continue-ok {ℓ κ} :
      {A : Type ℓ} {B : Type κ} (rest : A → Method S B) (r : Result A × S) {value : B} {st' : S}
      → continue rest r ≡ (ok value, st')
      → (a : A) × (r.0 ≡ ok a) × (rest a r.1 ≡ (ok value, st'))
  continue-ok rest (err e, st) h = let clash = ap (λ q. q.0) h in cc
  continue-ok rest (ok a, st) h = (a, refl, h)

-- A property of the state that a method keeps, on every outcome.
abbrev pub Keeps {ℓ κ} : {S : Type 0} {A : Type ℓ} → (S → Type κ) → Method S A → Type κ
Keeps P call = (st : _) → P st → P (call st).1

pub continue-Keeps {ℓ ℓ' κ} :
    {S : Type 0} {A : Type ℓ} {B : Type ℓ'} (P : S → Type κ) (rest : A → Method S B)
    (r : Result A × S)
    → ((value : A) → Keeps P (rest value))
    → P r.1
    → P (continue rest r).1
continue-Keeps P rest (err e, st) h k = k
continue-Keeps P rest (ok value, st) h k = h value st k
