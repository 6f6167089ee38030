-- ===== src/Base/Steps.antt =====
-- A relation between the store before an action and the store after it, whether the action returns or
-- raises: one rule for each way to build an action.
use native.Mathlib.Omega.{arith}
use mathlib.Core.Bool.{Bool, true, false}
use mathlib.Core.Option.{Option, none, some}
use package.gpt_project_bridge.Base.Tests.{if◌then◌else◌}
use package.gpt_project_bridge.Base.Monad.{
  Exn, Result, ok, err, Action, pure, raise, lift, gets, or_raise, raise_if, transaction, ◌>>=◌,
}

pub record IsPreorder {S : Type 0} (R : S → S → Type 0) : Type 0 where
  pub refl_at : (s : S) → R s s
  pub trans_at : (s t u : S) → R s t → R t u → R s u

-- `m` takes every store to a related one.
pub record Steps {S A : Type 0} (R : S → S → Type 0) (m : Action S A) : Type 0 where
  pub at : (s : S) → R s (m s).1

module _ {S A : Type 0} {R : S → S → Type 0} (o : IsPreorder R) where
  pub Steps-pure : (a : A) → Steps R (pure a)
  Steps-pure a = record { at = o.refl_at }

  pub Steps-raise : (e : Exn) → Steps R (raise {A = A} e)
  Steps-raise e = record { at = o.refl_at }

  pub Steps-lift : (r : Result A) → Steps R (lift r)
  Steps-lift r = record { at = o.refl_at }

  pub Steps-gets : (f : S → A) → Steps R (gets f)
  Steps-gets f = record { at = o.refl_at }

  pub Steps-or_raise : (v : Option A) (e : Exn) → Steps R (or_raise v e)
  Steps-or_raise none e = record { at = o.refl_at }
  Steps-or_raise (some a) e = record { at = o.refl_at }

  pub Steps-if :
      (b : Bool) (m n : Action S A) → Steps R m → Steps R n → Steps R (if b then m else n)
  Steps-if true m n h k = h
  Steps-if false m n h k = k

  -- a rollback goes back to the store of the beginning
  pub Steps-transaction : (m : Action S A) → Steps R m → Steps R (transaction m)
  Steps-transaction m h = record { at = λ s. ground (arith, h.at s, o.refl_at s) }

module _ {S : Type 0} {R : S → S → Type 0} (o : IsPreorder R) where
  pub Steps-raise_if : (b : Bool) (e : Exn) → Steps R (raise_if b e)
  Steps-raise_if true e = record { at = o.refl_at }
  Steps-raise_if false e = record { at = o.refl_at }

module _ {S A B : Type 0} {R : S → S → Type 0} (o : IsPreorder R) where
  continue :
      (f : A → Action S B)
      → ((a : A) → Steps R (f a))
      → (r : Result A) (s s' : S) → R s s'
      → R s (◌>>=◌ {A = A} (λ _. (r, s')) f s).1
  continue f kf (ok a) s s' h = o.trans_at s s' _ h ((kf a).at s')
  continue f kf (err e) s s' h = h

  pub Steps-bind :
      (m : Action S A) (f : A → Action S B)
      → Steps R m
      → ((a : A) → Steps R (f a))
      → Steps R (m >>= f)
  Steps-bind m f km kf = record { at = λ s. continue f kf (m s).0 s (m s).1 (km.at s) }
