-- ===== src/SecretPlane/Later.antt =====
-- What every operation of the plane leaves: the audit events that were there, the uses of leases and
-- their revocations.
pub mod Methods
use mathlib.Core.List.{append-nil, append_assoc}
use gpt_project_bridge.Base.{
  ℕ, ◌+◌, ◌≤◌, String, ◌≡◌, refl, sym, ap, subst, ◌∙◌, inl, inr, arith, Bool, true, false, not,
  ◌||◌, Option, none, some, List, [], ◌∷◌, ◌++◌, Result, ok, err, Exn, Action, modify, leb,
  Bool-cases, ◌==◌, if◌then◌else◌,
}
use gpt_project_bridge.Base.Steps.{
  IsPreorder, Steps, Steps-pure, Steps-raise, Steps-lift, Steps-gets, Steps-or_raise, Steps-if,
  Steps-raise_if, Steps-bind,
}
use gpt_project_bridge.Host.{Host}
use gpt_project_bridge.Json.{Fields, str, to_fields, put}
use gpt_project_bridge.Base.Dict.{set_item, remove_item}
use gpt_project_bridge.SecretPlane.Data.{
  Descriptor, Policy, Lease, SecretState, class_value, descriptor_dict, policy_dict, audit_dict,
  disclosure,
}
use gpt_project_bridge.SecretPlane.Store.{
  LeaseState, registered, used, used_unless, after_revoke, LeaseStore,
}
use gpt_project_bridge.SecretPlane.Material.{Bytes, Vault, Value, contains_secret}
use gpt_project_bridge.SecretPlane.Plane.{
  Plane, Wanted, Consumed, returns, raises_plane, raises_other, audit_event, audit, descriptor,
  policy_of, on_leases, on_vault, register_secret, new_lease, hand_out, deny, decide_lease,
  check_live, issue_lease,
}
use gpt_project_bridge.SecretPlane.Use.{
  verify_lease, check_used, take_material, judge_result, after_consumer, execute_with_secret,
  rebind_secret, end_secret, revoke_secret, destroy_bound, destroy_secret,
}

-- what is kept of the state of a lease
abbrev pub Since : Option LeaseState → Option LeaseState → Type 0
Since none o = Unit
Since (some a) none = ⊥
Since (some a) (some b) =
    (a.secret_id ≡ b.secret_id) × (a.uses ≤ b.uses) × (a.revoked ≡ true → b.revoked ≡ true)

Since-refl : (o : Option LeaseState) → Since o o
Since-refl none = tt
Since-refl (some a) = (refl, omega arith, λ h. h)

Since-trans : (o p q : Option LeaseState) → Since o p → Since p q → Since o q
Since-trans none p q h k = tt
Since-trans (some a) none q h k = absurd h
Since-trans (some a) (some b) none h k = absurd k
Since-trans (some a) (some b) (some c) h k = (h.0 ∙ k.0, omega (arith, h.1, k.1), λ r. k.2 (h.2 r))

Since-registered : (l : Lease) (o : Option LeaseState) → Since o (registered l o)
Since-registered l none = tt
Since-registered l (some a) = Since-refl (some a)

Since-used : (l : Lease) (o : Option LeaseState) → Since o (used l o)
Since-used l none = tt
Since-used l (some a) = elim (Bool-cases (a.revoked || leb l.max_uses a.uses)) [
  | inl x ↦ rw x (Since-refl (some a))
  | inr x ↦ rw x (refl, omega arith, λ h. h)
]

Since-unless : (b : Bool) (l : Lease) (o : Option LeaseState) → Since o (used_unless b l o)
Since-unless true l o = Since-refl o
Since-unless false l o = Since-used l o

Since-after_revoke :
    (secret_id : String) (o : Option LeaseState) → Since o (after_revoke secret_id o)
Since-after_revoke secret_id none = tt
Since-after_revoke secret_id (some a) = elim (Bool-cases (a.secret_id == secret_id)) [
  | inl x ↦ rw x (refl, omega arith, λ h. refl)
  | inr x ↦ rw x (Since-refl (some a))
]

Since-if : (b : Bool) (o p : Option LeaseState) → Since o p → Since o (if b then p else o)
Since-if true o p h = h
Since-if false o p h = Since-refl o

module _ (S : LeaseStore) (V : Vault) where
  pub record Later (s t : Plane S V) : Type 0 where
    pub grown : (more : List Fields) × (t.audit_events ≡ s.audit_events ++ more)
    pub since : (id : String) → Since (S.view s.leases id) (S.view t.leases id)

  pub Later-order : IsPreorder Later
  Later-order = record {
    refl_at = λ s. record {
      grown = ([], sym (append-nil s.audit_events));
      since = λ id. Since-refl (S.view s.leases id);
    };
    trans_at = λ s t u f g. record {
      grown = (
        f.grown.0 ++ g.grown.0,
        g.grown.1
            ∙ ap (λ l. l ++ g.grown.0) f.grown.1
            ∙ append_assoc s.audit_events f.grown.0 g.grown.0,
      );
      since = λ id.
          Since-trans (S.view s.leases id) (S.view t.leases id) (S.view u.leases id) (f.since id)
            (g.since id);
    };
  }

  Later-leases :
      (f : Plane S V → Plane S V)
      → ((s : Plane S V) → (f s).audit_events ≡ s.audit_events)
      → ((s : Plane S V) (id : String) → Since (S.view s.leases id) (S.view (f s).leases id))
      → Steps Later (modify f)
  Later-leases f same h = record {
    at = λ s. record { grown = ([], same s ∙ sym (append-nil s.audit_events)); since = h s };
  }

  Later-on_leases :
      (H : Host) (mac : String → String) (now : ℕ) {A : Type 0} (m : Action S.L A)
      → ((l : S.L) (id : String) → Since (S.view l id) (S.view (m l).1 id))
      → Steps Later (on_leases H mac S V now m)
  unfolding on_leases
  Later-on_leases H mac now m h = record {
    at = λ s. record { grown = ([], sym (append-nil s.audit_events)); since = h s.leases };
  }

  module _ (H : Host) (mac : String → String) (now : ℕ) where
    pub Later-audit :
        (event_type : String) (payload : Fields)
        → Steps Later (audit H mac S V now event_type payload)
    unfolding audit
    Later-audit event_type payload = record {
      at = λ s. record {
        grown = (audit_event H mac now event_type payload ∷ [], refl);
        since = λ id. Since-refl (S.view s.leases id);
      };
    }

    pub Later-on_vault : {A : Type 0} (m : Action V.V A) → Steps Later (on_vault H mac S V now m)
    unfolding on_vault
    Later-on_vault m = record {
      at = λ s. record {
        grown = ([], sym (append-nil s.audit_events));
        since = λ id. Since-refl (S.view s.leases id);
      };
    }

    pub Later-register : (l : Lease) → Steps Later (on_leases H mac S V now (S.register l))
    Later-register l = Later-on_leases H mac now (S.register l) (λ t id.
        rw (S.view-register l t id) (
          Since-if (l.lease_id == id) (S.view t id) (registered l (S.view t id))
            (Since-registered l (S.view t id))))

    pub Later-consume : (l : Lease) → Steps Later (on_leases H mac S V now (S.consume l))
    Later-consume l = Later-on_leases H mac now (S.consume l) (λ t id. rw (S.view-consume l t id) (
        Since-if (l.lease_id == id) (S.view t id) (used_unless (S.in_transaction t) l (S.view t id))
          (Since-unless (S.in_transaction t) l (S.view t id))))

    pub Later-revoke :
        (secret_id : String) (d : List (String × Descriptor) → List (String × Descriptor))
        (b : List (String × String) → List (String × String))
        → Steps Later (
            modify (λ s. record s {
              descriptors = d s.descriptors;
              bindings = b s.bindings;
              leases = S.revoke secret_id s.leases;
            }))
    Later-revoke secret_id d b =
        Later-leases _ (λ s. refl)
          (λ s id.
            rw (S.view-revoke secret_id s.leases id)
              (Since-after_revoke secret_id (S.view s.leases id)))
