-- ===== src/Base/Inversion.antt =====
-- What a method that returned has done, part by part.
use mathlib.Core.Path.{◌≡◌, refl, ap}
use mathlib.Core.Bool.{Bool, true, false}
use mathlib.Core.Option.{Option, none, some}
use native.Mathlib.Omega.{arith}
use package.gpt_project_bridge.Base.Monad.{
  Exn, Result, ok, err, Action, raise_if, or_raise, transaction, ◌>>=◌,
}

module _ {S A B : Type 0} where
  pub bind-ok :
      (m : Action S A) (f : A → Action S B) (s : S) {b : B} {t : S}
      → (m >>= f) s ≡ (ok b, t)
      → (a : A) × (s' : S) × (m s ≡ (ok a, s')) × (f a s' ≡ (ok b, t))
  bind-ok m f s {b} {t} e = go (m s).0 refl e
    where
      go :
          (r : Result A)
          → (m s).0 ≡ r
          → ◌≡◌ {A = Result B × S}
              (elim (m s).0 [ ok a ↦ f a (m s).1 | err x ↦ (err x, (m s).1) ])
              (ok b, t)
          → (a : A) × (s' : S) × (m s ≡ (ok a, s')) × (f a s' ≡ (ok b, t))
      go (ok a) p q = (a, (m s).1, (λ i. (p i, (m s).1)), rw p at q)
      go (err x) p q = absurd (cc (ap (λ (v : Result B × S). v.0) (rw p at q)))

  pub bind_eq :
      (m : Action S A) (f : A → Action S B) (s : S) {a : A} {t : S}
      → m s ≡ (ok a, t)
      → (m >>= f) s ≡ f a t
  bind_eq m f s e = ap (λ (v : Result A × S). ◌>>=◌ {A = A} (λ _. v) f s) e

module _ {S A : Type 0} where
  pub transaction-ok :
      (m : Action S A) (s : S) {a : A} {t : S} → transaction m s ≡ (ok a, t) → m s ≡ (ok a, t)
  transaction-ok m s {a} {t} e = ground arith

  pub transaction-err :
      (m : Action S A) (s : S) {e : Exn} → (transaction m s).0 ≡ err e → (transaction m s).1 ≡ s
  transaction-err m s h = ground arith

  pub or_raise-ok :
      (o : Option A) (e : Exn) (s : S) {a : A} {t : S}
      → or_raise o e s ≡ (ok a, t)
      → (o ≡ some a) × (t ≡ s)
  or_raise-ok none e s h = ground arith
  or_raise-ok (some b) e s h = ground arith

module _ {S : Type 0} where
  pub raise_if-ok :
      (b : Bool) (e : Exn) (s : S) {u : Unit {0}} {t : S}
      → raise_if b e s ≡ (ok u, t)
      → (b ≡ false) × (t ≡ s)
  raise_if-ok true e s h = ground arith
  raise_if-ok false e s h = ground arith
