-- ===== src/Prelude/Exec.antt =====
-- Python's exceptions, and methods that mutate an object and may raise.
use mathlib.Core.Bool.{Bool, true, false}
use mathlib.Core.Option.{Option, none, some}
use mathlib.Core.Logic.{◌⊎◌, inl, inr}
use mathlib.Core.Path.{◌≡◌, refl}

-- The exception classes that the modelled code raises.
pub data Error : Type 0 where
  value_error permission_error key_error type_error runtime_error attribute_error : Error
  invalid_transition stale_dispatch budget_exceeded : Error
  ledger_integrity replay_conflict out_of_fuel : Error
  integrity_error migration_conflict migration_integrity operational_error : Error

-- A pure function that may raise.
pub data Result {ℓ} (A : Type ℓ) : Type ℓ where
  ok : A → Result A
  err : Error → Result A

-- What was written before a raise stays written, so the state comes back beside the error too.
abbrev pub Exec {ℓ κ} : Type ℓ → Type κ → Type (ℓ ⊔ κ)
Exec S A = S → Result A × S

module _ {ℓ κ} {S : Type ℓ} {A : Type κ} where
  abbrev pub pure : A → Exec S A
  pure a s = (ok a, s)

  abbrev pub raise : Error → Exec S A
  raise e s = (err e, s)

  abbrev pub lift : Result A → Exec S A
  lift r s = (r, s)

  abbrev pub gets : (S → A) → Exec S A
  gets f s = (ok (f s), s)

  -- `BEGIN IMMEDIATE … COMMIT`, with `ROLLBACK` and a re-raise on any exception.
  abbrev pub keep_if_ok : S → Result A × S → Result A × S
  keep_if_ok s (ok a, t) = (ok a, t)
  keep_if_ok s (err e, t) = (err e, s)

  abbrev pub transaction : Exec S A → Exec S A
  transaction m s = keep_if_ok s (m s)

abbrev pub modify {ℓ} : {S : Type ℓ} → (S → S) → Exec S (Unit {0})
modify f s = (ok tt, f s)

abbrev pub state {ℓ} : {S : Type ℓ} → Exec S S
state s = (ok s, s)

-- `if test: raise e`
abbrev pub raise_if {ℓ} : {S : Type ℓ} → Bool → Error → Exec S (Unit {0})
raise_if true e s = (err e, s)
raise_if false e s = (ok tt, s)

-- A value that may be missing, with the exception for that case.
abbrev pub or_raise {ℓ κ} : {S : Type ℓ} {A : Type κ} → Option A → Error → Exec S A
or_raise none e s = (err e, s)
or_raise (some a) e s = (ok a, s)

module _ {ℓ κ μ} {S : Type ℓ} {A : Type κ} {B : Type μ} where
  abbrev pub continue : Result A × S → (A → Exec S B) → Result B × S
  continue (ok a, s) f = f a s
  continue (err e, s) f = (err e, s)

  infixl 10 ◌>>=◌ ◌>>◌
  abbrev pub ◌>>=◌ : Exec S A → (A → Exec S B) → Exec S B
  ◌>>=◌ m f s = continue (m s) f

  abbrev pub ◌>>◌ : Exec S A → Exec S B → Exec S B
  m >> n = m >>= λ _. n

  -- An action that only turns a result into another one leaves the state as it was.
  pub state-pure : (r : Result A × S) (f : A → B) → (continue r (λ a. pure (f a))).1 ≡ r.1
  state-pure (ok a, s) f = refl
  state-pure (err e, s) f = refl

  -- After a result comes what is done with it.
  pub continue-ok :
      (r : Result A × S) (a : A) (f : A → Exec S B) → r.0 ≡ ok a → continue r f ≡ f a r.1
  continue-ok (x, s) a f h = rw h refl

  pub continue-err :
      (r : Result A × S) (e : Error) (f : A → Exec S B) → r.0 ≡ err e → continue r f ≡ (err e, r.1)
  continue-err (x, s) e f h = rw h refl

pub Result-cases {ℓ} :
    {A : Type ℓ} (r : Result A) → ((a : A) × (r ≡ ok a)) ⊎ ((e : Error) × (r ≡ err e))
Result-cases (ok a) = inl (a, refl)
Result-cases (err e) = inr (e, refl)
