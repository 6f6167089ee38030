-- ===== src/Base/Monad.antt =====
-- Methods that read and write a store and may raise. What was written before a raise stays written
-- until a handler undoes it, so the store comes back beside the exception too.
use Prim.Native.Nat.{ℕ}
use Prim.Native.String.{String}
use mathlib.Core.Path.{◌≡◌, refl}
use mathlib.Core.Logic.{◌⊎◌, inl, inr}
use mathlib.Core.Bool.{Bool, true, false}
use mathlib.Core.Option.{Option, none, some}

-- The exception classes that the program raises, with their message.
pub data Exn : Type 0 where
  value_error : String → Exn
  permission_error : String → Exn
  lookup_error : String → Exn
  runtime_error : String → Exn
  type_error : String → Exn
  integrity_error : String → Exn
  key_error : String → Exn
  assertion_error : String → Exn
  access_denied : String → Exn
  not_available : String → Exn
  exposure_error : String → Exn
  other_error : String → Exn
  http_error : ℕ → String → Exn

pub data Result {ℓ} (A : Type ℓ) : Type ℓ where
  ok : A → Result A
  err : Exn → Result A

abbrev pub Action : Type 0 → Type 0 → Type 0
Action S A = S → Result A × S

-- the next check of a row of checks that may raise
infixr 5 ◌&>◌
abbrev pub ◌&>◌ {ℓ κ} : {A : Type ℓ} {B : Type κ} → Result A → Result B → Result B
ok a &> r = r
err e &> r = err e

abbrev pub require : Bool → Exn → Result (Unit {0})
require true e = ok tt
require false e = err e

-- the rest of a computation that may raise
abbrev pub ok_then {ℓ κ} : {A : Type ℓ} {B : Type κ} → Result A → (A → Result B) → Result B
ok_then (ok a) f = f a
ok_then (err e) f = err e

module _ {S A : Type 0} where
  abbrev pub pure : A → Action S A
  pure a s = (ok a, s)

  abbrev pub raise : Exn → Action S A
  raise e s = (err e, s)

  abbrev pub lift : Result A → Action S A
  lift r s = (r, s)

  abbrev pub gets : (S → A) → Action S A
  gets f s = (ok (f s), s)

  abbrev pub or_raise : Option A → Exn → Action S A
  or_raise none e = raise e
  or_raise (some a) _ = pure a

  -- `except Exception: conn.rollback(); raise`
  abbrev pub transaction : Action S A → Action S A
  transaction m s = let (r, s') = m s in elim r [ ok a ↦ (ok a, s') | err e ↦ (err e, s) ]

module _ {S : Type 0} where
  abbrev pub raise_if : Bool → Exn → Action S (Unit {0})
  raise_if true e = raise e
  raise_if false _ = pure tt

  abbrev pub modify : (S → S) → Action S (Unit {0})
  modify f s = (ok tt, f s)

infixl 5 ◌>>=◌ ◌>>◌
abbrev pub ◌>>=◌ : {S A B : Type 0} → Action S A → (A → Action S B) → Action S B
◌>>=◌ m f s = let (r, s') = m s in elim r [ ok a ↦ f a s' | err e ↦ (err e, s') ]

abbrev pub ◌>>◌ : {S A B : Type 0} → Action S A → Action S B → Action S B
m >> k = m >>= λ _. k

pub ok_inj {ℓ} : {A : Type ℓ} {x y : A} → ok x ≡ ok y → x ≡ y
ok_inj e = cc e

pub Result-cases {ℓ} :
    {A : Type ℓ} (r : Result A) → ((a : A) × (r ≡ ok a)) ⊎ ((e : Exn) × (r ≡ err e))
Result-cases (ok a) = inl (a, refl)
Result-cases (err e) = inr (e, refl)
