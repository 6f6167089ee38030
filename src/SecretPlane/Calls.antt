-- ===== src/SecretPlane/Calls.antt =====
-- A history of calls of the plane (app/secret_plane.py), each at its own time.
use gpt_project_bridge.Base.{
  ℕ, ◌≡◌, refl, ap, inl, inr, Bool, true, String, Option, none, some, List, [], ◌∷◌, ◌++◌, Result,
  ok, err, if◌then◌else◌, Bool-cases, arith,
}
use gpt_project_bridge.Base.Dict.{lookup}
use gpt_project_bridge.Host.{Host}
use gpt_project_bridge.Json.{Fields}
use gpt_project_bridge.SecretPlane.Data.{Descriptor, Policy, Lease}
use gpt_project_bridge.SecretPlane.Store.{LeaseStore, is_ok}
use gpt_project_bridge.SecretPlane.Material.{Bytes, Vault}
use gpt_project_bridge.SecretPlane.Plane.{
  Plane, Wanted, Consumed, descriptor, register_secret, issue_lease,
}
use gpt_project_bridge.SecretPlane.Use.{
  verify_lease, execute_with_secret, rebind_secret, revoke_secret, destroy_secret, is_destroyed,
}
use gpt_project_bridge.SecretPlane.Logs.{
  Logs, register_secret-Logs, issue_lease-Logs, execute_with_secret-Logs, rebind_secret-Logs,
  revoke_secret-Logs, destroy_secret-Logs, destroy_secret-again,
}
use gpt_project_bridge.SecretPlane.Verified.{verify_lease-Verified}
use gpt_project_bridge.SecretPlane.Later.{Later, Later-order}
use gpt_project_bridge.SecretPlane.Later.Methods.{
  register_secret-Later, issue_lease-Later, verify_lease-Later, execute_with_secret-Later,
  rebind_secret-Later, revoke_secret-Later, destroy_secret-Later,
}

pub data PlaneCall : Type 0 where
  registers : Descriptor → Policy → (locator : String) → PlaneCall
  issues : (nonce : String) → Wanted → PlaneCall
  verifies : Lease → PlaneCall
  executes : Lease → (Bytes → Consumed) → PlaneCall
  rebinds : (secret_id new_locator : String) → (new_version : ℕ) → PlaneCall
  revokes : (secret_id : String) → PlaneCall
  destroys : (secret_id : String) → PlaneCall

is_ok-true : {A : Type 0} {r : Result A} → is_ok r ≡ true → (a : A) × (r ≡ ok a)
is_ok-true {r = ok a} e = (a, refl)
is_ok-true {r = err x} e = cc e

at_once : {A P : Type 0} {v : Result A × P} {a : A} → v.0 ≡ ok a → v ≡ (ok a, v.1)
at_once {v = v} e = λ i. (e i, v.1)

module _ (H : Host) (mac : String → String) (decode : Bytes → Option String) (S : LeaseStore)
    (V : Vault) where
  -- the plane after one call, whether it returned or raised
  unfoldable pub call : ℕ → PlaneCall → Plane S V → Plane S V
  unfolding register_secret issue_lease verify_lease execute_with_secret rebind_secret revoke_secret
      destroy_secret
  call now (registers d p locator) s = (register_secret H mac S V now d p locator s).1
  call now (issues nonce w) s = (issue_lease H mac S V now nonce w s).1
  call now (verifies l) s = (verify_lease H mac S V now l s).1
  call now (executes l consumer) s = (execute_with_secret H mac S V now decode l consumer s).1
  call now (rebinds secret_id new_locator new_version) s =
      (rebind_secret H mac S V now secret_id new_locator new_version s).1
  call now (revokes secret_id) s = (revoke_secret H mac S V now secret_id s).1
  call now (destroys secret_id) s = (destroy_secret H mac S V now secret_id s).1

  unfoldable pub call_all : List (ℕ × PlaneCall) → Plane S V → Plane S V
  unfolding call
  call_all [] s = s
  call_all ((now, c) ∷ cs) s = call_all cs (call now c s)

  pub call-Later : (now : ℕ) (c : PlaneCall) (s : Plane S V) → Later S V s (call now c s)
  unfolding call
  call-Later now (registers d p locator) s = (register_secret-Later H mac S V now d p locator).at s
  call-Later now (issues nonce w) s = (issue_lease-Later H mac S V now nonce w).at s
  call-Later now (verifies l) s = (verify_lease-Later H mac S V now l).at s
  call-Later now (executes l consumer) s =
      (execute_with_secret-Later H mac S V now decode l consumer).at s
  call-Later now (rebinds secret_id new_locator new_version) s =
      (rebind_secret-Later H mac S V now secret_id new_locator new_version).at s
  call-Later now (revokes secret_id) s = (revoke_secret-Later H mac S V now secret_id).at s
  call-Later now (destroys secret_id) s = (destroy_secret-Later H mac S V now secret_id).at s

  pub call_all-Later : (cs : List (ℕ × PlaneCall)) (s : Plane S V) → Later S V s (call_all cs s)
  unfolding call_all
  call_all-Later [] s = (Later-order S V).refl_at s
  call_all-Later ((now, c) ∷ cs) s =
      (Later-order S V).trans_at s (call now c s) _ (call-Later now c s)
        (call_all-Later cs (call now c s))

  -- whether the method returned
  unfoldable returned : ℕ → PlaneCall → Plane S V → Bool
  returned now (registers d p locator) s = is_ok (register_secret H mac S V now d p locator s).0
  returned now (issues nonce w) s = is_ok (issue_lease H mac S V now nonce w s).0
  returned now (verifies l) s = is_ok (verify_lease H mac S V now l s).0
  returned now (executes l consumer) s =
      is_ok (execute_with_secret H mac S V now decode l consumer s).0
  returned now (rebinds secret_id new_locator new_version) s =
      is_ok (rebind_secret H mac S V now secret_id new_locator new_version s).0
  returned now (revokes secret_id) s = is_ok (revoke_secret H mac S V now secret_id s).0
  returned now (destroys secret_id) s = is_ok (destroy_secret H mac S V now secret_id s).0

  abbrev unless_gone : Option Descriptor → Option String
  unless_gone none = none
  unless_gone (some d) = if is_destroyed d.state then none else some "SECRET_DESTROYED"

  -- the type of the event of a method that returns, if it is to have one: a check has none, nor has the
  -- destruction of a secret that was destroyed before
  unfoldable announces : PlaneCall → Plane S V → Option String
  announces (registers d p locator) s = some "SECRET_REGISTERED"
  announces (issues nonce w) s = some "LEASE_ISSUED"
  announces (verifies l) s = none
  announces (executes l consumer) s = some "LEASE_USED"
  announces (rebinds secret_id new_locator new_version) s = some "SECRET_REBOUND"
  announces (revokes secret_id) s = some "SECRET_REVOKED"
  announces (destroys secret_id) s = unless_gone (lookup secret_id s.descriptors)

  -- just the one event of that type and time, or none
  abbrev Announced : ℕ → Option String → Plane S V → Plane S V → Type 0
  Announced now none s t = t.audit_events ≡ s.audit_events
  Announced now (some event_type) s t = Logs H mac S V now event_type s t

  -- The events only grow, and a call that returned adds just the event that it is to have.
  unfoldable pub Trail : List (ℕ × PlaneCall) → Plane S V → Type 0
  unfolding call returned announces
  Trail [] s = Unit
  Trail ((now, c) ∷ cs) s =
      ((more : List Fields) × ((call now c s).audit_events ≡ s.audit_events ++ more))
      × (returned now c s ≡ true → Announced now (announces c s) s (call now c s))
      × Trail cs (call now c s)

  unknown :
      (now : ℕ) (secret_id : String) (s : Plane S V) {d' : Descriptor}
      → (destroy_secret H mac S V now secret_id s).0 ≡ ok d'
      → lookup secret_id s.descriptors ≡ none
      → ⊥
  unfolding destroy_secret descriptor
  unknown now secret_id s e x = ground arith

  destroy-Announced :
      (now : ℕ) (secret_id : String) (s : Plane S V) {d' : Descriptor}
      → (destroy_secret H mac S V now secret_id s).0 ≡ ok d'
      → (o : Option Descriptor) → lookup secret_id s.descriptors ≡ o
      → Announced now (unless_gone o) s (destroy_secret H mac S V now secret_id s).1
  destroy-Announced now secret_id s e none x = absurd (unknown now secret_id s e x)
  destroy-Announced now secret_id s e (some d) x = elim (Bool-cases (is_destroyed d.state)) [
    | inl gone ↦ rw gone (destroy_secret-again H mac S V now secret_id s _ d x gone (at_once e))
    | inr alive ↦ rw alive (destroy_secret-Logs H mac S V now secret_id s _ d x alive (at_once e))
  ]

  call-Announced :
      (now : ℕ) (c : PlaneCall) (s : Plane S V)
      → returned now c s ≡ true
      → Announced now (announces c s) s (call now c s)
  unfolding call returned announces
  call-Announced now (registers d p locator) s e =
      register_secret-Logs H mac S V now d p locator s _ (at_once (is_ok-true e).1)
  call-Announced now (issues nonce w) s e =
      issue_lease-Logs H mac S V now nonce w s _ (at_once (is_ok-true e).1)
  call-Announced now (verifies l) s e =
      ap (λ (x : Plane S V). x.audit_events)
        (verify_lease-Verified H mac S V now l s _ (at_once (is_ok-true e).1)).1
  call-Announced now (executes l consumer) s e =
      execute_with_secret-Logs H mac S V now decode l consumer s _ (at_once (is_ok-true e).1)
  call-Announced now (rebinds secret_id new_locator new_version) s e =
      rebind_secret-Logs H mac S V now secret_id new_locator new_version s _
        (at_once (is_ok-true e).1)
  call-Announced now (revokes secret_id) s e =
      revoke_secret-Logs H mac S V now secret_id s _ (at_once (is_ok-true e).1)
  call-Announced now (destroys secret_id) s e =
      destroy-Announced now secret_id s (is_ok-true e).1 (lookup secret_id s.descriptors) refl

  trail : (cs : List (ℕ × PlaneCall)) (s : Plane S V) → Trail cs s
  unfolding Trail
  trail [] s = tt
  trail ((now, c) ∷ cs) s =
      ((call-Later now c s).grown, call-Announced now c s, trail cs (call now c s))

  -- Along any history of calls the audit events that were there stay, in their order, new ones stand
  -- behind them, and a call that returned adds just one event, with its time and of the type of its
  -- method (registered, issued, used, rebound, revoked, destroyed); a check that returned, and the
  -- destruction of a secret that was destroyed before, add none.
  pub audit_events-call_all :
      (cs : List (ℕ × PlaneCall)) (s : Plane S V)
      → ((more : List Fields) × ((call_all cs s).audit_events ≡ s.audit_events ++ more))
        × Trail cs s
  audit_events-call_all cs s = ((call_all-Later cs s).grown, trail cs s)
