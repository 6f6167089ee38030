-- ===== src/SecretPlane/Ended.antt =====
-- Leases of a secret that was rebound, revoked or destroyed (app/secret_plane.py).
use gpt_project_bridge.Base.{
  ℕ, String, ◌≡◌, refl, sym, ap, subst, ◌∙◌, inl, inr, arith, true, false, Option, none, some, List,
  ok, Action, Result-cases, eq_iff,
}
use gpt_project_bridge.Base.Dict.{lookup}
use gpt_project_bridge.Host.{Host}
use gpt_project_bridge.SecretPlane.Data.{Descriptor, Lease}
use gpt_project_bridge.SecretPlane.Store.{LeaseState, LeaseStore, can_use, after_revoke, is_ok}
use gpt_project_bridge.SecretPlane.Material.{Bytes, Vault}
use gpt_project_bridge.SecretPlane.Plane.{Plane, audit, descriptor, on_vault}
use gpt_project_bridge.SecretPlane.Use.{
  is_destroyed, take_material, rebind_secret, end_secret, revoke_secret, destroy_bound,
  destroy_secret,
}
use gpt_project_bridge.SecretPlane.Calls.{PlaneCall, call_all, call_all-Later}
use gpt_project_bridge.SecretPlane.Uses.{take_material-use_once, use_once-can_use}
use gpt_project_bridge.SecretPlane.Later.{Since}

-- the calls that end the leases of a secret
pub data Ending : Type 0 where
  rebinding : (new_locator : String) → (new_version : ℕ) → Ending
  revocation : Ending
  destruction : Ending

module _ (H : Host) (mac : String → String) (S : LeaseStore) (V : Vault) where
  unfoldable pub end_by : ℕ → String → Ending → Action (Plane S V) Descriptor
  unfolding rebind_secret revoke_secret destroy_secret
  end_by now secret_id (rebinding new_locator new_version) =
      rebind_secret H mac S V now secret_id new_locator new_version
  end_by now secret_id revocation = revoke_secret H mac S V now secret_id
  end_by now secret_id destruction = destroy_secret H mac S V now secret_id

  module _ (now : ℕ) (secret_id : String) (s t : Plane S V) (d : Descriptor) {d' : Descriptor}
      (h : lookup secret_id s.descriptors ≡ some d) where
    revoke_secret-leases :
        is_destroyed d.state ≡ false
        → revoke_secret H mac S V now secret_id s ≡ (ok d', t)
        → t.leases ≡ S.revoke secret_id s.leases
    unfolding revoke_secret descriptor end_secret audit
    revoke_secret-leases k e = ground arith

    destroy_secret-leases :
        is_destroyed d.state ≡ false
        → destroy_secret H mac S V now secret_id s ≡ (ok d', t)
        → t.leases ≡ S.revoke secret_id s.leases
    unfolding destroy_secret destroy_bound descriptor end_secret audit on_vault
    destroy_secret-leases k e = ground arith

    rebind_secret-leases :
        (new_locator : String) (new_version : ℕ)
        → rebind_secret H mac S V now secret_id new_locator new_version s ≡ (ok d', t)
        → t.leases ≡ S.revoke secret_id s.leases
    unfolding rebind_secret descriptor audit
    rebind_secret-leases new_locator new_version e = ground arith

    end_by-leases :
        (how : Ending)
        → is_destroyed d.state ≡ false
        → end_by now secret_id how s ≡ (ok d', t)
        → t.leases ≡ S.revoke secret_id s.leases
    unfolding end_by
    end_by-leases (rebinding new_locator new_version) k e =
        rebind_secret-leases new_locator new_version e
    end_by-leases revocation k e = revoke_secret-leases k e
    end_by-leases destruction k e = destroy_secret-leases k e

-- a lease that is there and revoked
abbrev IsRevoked : Option LeaseState → Type 0
IsRevoked none = ⊥
IsRevoked (some st) = st.revoked ≡ true

IsRevoked-after_revoke :
    (secret_id : String) (st : LeaseState)
    → st.secret_id ≡ secret_id
    → IsRevoked (after_revoke secret_id (some st))
IsRevoked-after_revoke secret_id st e =
    let test = (eq_iff st.secret_id secret_id).1 e in rw test refl

IsRevoked-Since : (o p : Option LeaseState) → Since o p → IsRevoked o → IsRevoked p
IsRevoked-Since none p h r = absurd r
IsRevoked-Since (some a) none h r = absurd h
IsRevoked-Since (some a) (some b) h r = h.2 r

IsRevoked-can_use : (l : Lease) (o : Option LeaseState) → IsRevoked o → can_use l o ≡ false
IsRevoked-can_use l none r = absurd r
IsRevoked-can_use l (some st) r = rw r refl

module _ (H : Host) (mac : String → String) (decode : Bytes → Option String) (S : LeaseStore)
    (V : Vault) where
  -- a revoked lease hands nothing out
  take_material-IsRevoked :
      (now : ℕ) (l : Lease) (s : Plane S V)
      → IsRevoked (S.view s.leases l.lease_id)
      → is_ok (take_material H mac S V now l s).0 ≡ false
  take_material-IsRevoked now l s r = elim (Result-cases (take_material H mac S V now l s).0) [
    | inr f ↦ rw f.1 refl
    | inl f ↦
        let (s1, s2, before, used_once, after) =
          take_material-use_once H mac decode S V now l s _
            (λ i. (f.1 i, (take_material H mac S V now l s).1)) in
        let later =
          IsRevoked-Since (S.view s.leases l.lease_id) (S.view s1.leases l.lease_id)
            (before.since l.lease_id) r in
        absurd (
          cc (
            sym (IsRevoked-can_use l (S.view s1.leases l.lease_id) later)
            ∙ use_once-can_use H mac decode S V now l s1 s2 used_once))
  ]

  -- Once a secret was rebound, revoked or destroyed, which a destroyed secret is not, no lease of it that
  -- the store knew hands out material again, whatever is called afterwards and at whatever times.
  pub take_material-end_by :
      (now : ℕ) (secret_id : String) (how : Ending) (s t : Plane S V) (d : Descriptor)
      {d' : Descriptor}
      → lookup secret_id s.descriptors ≡ some d
      → is_destroyed d.state ≡ false
      → end_by H mac S V now secret_id how s ≡ (ok d', t)
      → (l : Lease) (st : LeaseState) → S.view s.leases l.lease_id ≡ some st
      → st.secret_id ≡ secret_id
      → (cs : List (ℕ × PlaneCall)) (later : ℕ)
      → is_ok (take_material H mac S V later l (call_all H mac decode S V cs t)).0 ≡ false
  take_material-end_by now secret_id how s t d h k e l st known same cs later =
      let gone =
        ap (λ x. S.view x l.lease_id) (end_by-leases H mac S V now secret_id s t d h how k e)
        ∙ S.view-revoke secret_id s.leases l.lease_id
        ∙ ap (after_revoke secret_id) known in
      let here : IsRevoked (S.view t.leases l.lease_id) =
        subst IsRevoked (sym gone) (IsRevoked-after_revoke secret_id st same) in
      take_material-IsRevoked later l (call_all H mac decode S V cs t) (
        IsRevoked-Since (S.view t.leases l.lease_id) _
          ((call_all-Later H mac decode S V cs t).since l.lease_id) here)
