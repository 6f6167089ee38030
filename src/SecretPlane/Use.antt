-- ===== src/SecretPlane/Use.antt =====
-- Leases in use, and the end of a secret: the other methods of `SecretPlane` of app/secret_plane.py.
-- `execute_with_secret` is in two parts, before and after the consumer has the material. The consumer
-- does not call the plane.
use gpt_project_bridge.Base.{
  ℕ, String, Bool, true, false, not, Option, [], ◌∷◌, Result, ok, err, value_error, access_denied,
  not_available, exposure_error, Action, pure, raise, lift, gets, modify, raise_if, or_raise, ◌>>=◌,
  ◌>>◌, leb, nat_eq, ◌==◌, if◌then◌else◌,
}
use gpt_project_bridge.Base.Dict.{lookup, set_item, remove_item}
use gpt_project_bridge.Host.{Host, compare_digest}
use gpt_project_bridge.Json.{str, num, to_fields, put}
use gpt_project_bridge.SecretPlane.Data.{
  SecretState, is_active, revoked, destroyed, Descriptor, Lease, signed_payload, audit_dict,
  disclosure,
}
use gpt_project_bridge.SecretPlane.Store.{LeaseStore}
use gpt_project_bridge.SecretPlane.Material.{Bytes, Vault, Value, contains_secret, is_empty_bytes}
use gpt_project_bridge.SecretPlane.Plane.{
  Plane, Consumed, returns, raises_plane, raises_other, expired, sign_payload, audit, descriptor,
  policy_of, on_leases, on_vault,
}

abbrev pub is_destroyed : SecretState → Bool
is_destroyed destroyed = true
is_destroyed _ = false

-- the answer of the gate, as an exception
abbrev pub denial : Bool × String → Result (Unit {0})
denial (true, reason) = ok tt
denial (false, reason) = err (access_denied reason)

module _ (H : Host) (mac : String → String) (S : LeaseStore) (V : Vault) (now : ℕ) where
  unfoldable pub verify_lease : Lease → Action (Plane S V) Descriptor
  unfolding sign_payload compare_digest descriptor expired policy_of disclosure
  verify_lease l = do
    same ← lift (compare_digest (sign_payload H mac (signed_payload l)) l.signature)
    raise_if (not same) (access_denied "invalid lease signature")
    d ← descriptor H mac S V now l.secret_id
    raise_if (not (is_active d.state)) (access_denied "secret is not active")
    raise_if (not (nat_eq d.version l.secret_version))
        (access_denied "lease is bound to a superseded secret version")
    raise_if (leb l.expires_at now) (access_denied "lease is expired")
    raise_if (expired now d.expires_at) (access_denied "secret descriptor is expired")
    p ← policy_of H mac S V now l.secret_id
    lift (denial (disclosure p l.actor l.capability l.scope))
    pure d

  -- The first part of `execute_with_secret`: the material.
  unfoldable pub check_used : Lease → Bool → Action (Plane S V) (Unit {0})
  unfolding audit put audit_dict
  check_used l true = pure tt
  check_used l false = do
    audit H mac S V now "LEASE_USE_DENIED"
        (put "reason" (str "usage_exhausted_or_revoked") (audit_dict l))
    raise (access_denied "lease usage exhausted or revoked")

  -- one use of the lease, counted before the material is read
  unfoldable pub use_once : Lease → Action (Plane S V) (Unit {0})
  unfolding on_leases check_used
  use_once l = do allowed ← on_leases H mac S V now (S.consume l); check_used l allowed

  unfoldable pub fetch : Lease → Action (Plane S V) Bytes
  fetch l = do
    bound ← gets (λ s. lookup l.secret_id s.bindings)
    locator ← or_raise bound (not_available "secret binding is unavailable")
    vault ← gets (λ s. s.vault)
    material ← lift (V.read locator vault)
    raise_if (is_empty_bytes material) (not_available "vault returned empty secret material")
    pure material

  unfoldable pub take_material : Lease → Action (Plane S V) Bytes
  unfolding verify_lease use_once fetch
  take_material l = do verify_lease l; use_once l; fetch l

  -- Its second part: what the consumer made of the material.
  unfoldable pub judge_result :
      (Bytes → Option String) → Lease → Bytes → Value → Action (Plane S V) Value
  unfolding audit put audit_dict contains_secret
  judge_result decode l raw result =
      if contains_secret decode raw result
      then audit H mac S V now "SECRET_RETURN_BLOCKED"
          (put "reason" (str "consumer_returned_secret_material") (audit_dict l))
        >> raise (exposure_error "consumer attempted to return secret material")
      else audit H mac S V now "LEASE_USED" (put "decision" (str "PASS") (audit_dict l))
        >> pure result

  unfoldable pub after_consumer :
      (Bytes → Option String) → Lease → Bytes → Consumed → Action (Plane S V) Value
  unfolding judge_result audit put audit_dict
  after_consumer decode l raw (returns result) = judge_result decode l raw result
  after_consumer decode l raw (raises_plane e) = raise e
  after_consumer decode l raw (raises_other error_type e) = do
    audit H mac S V now "LEASE_USE_ERROR" (put "error_type" (str error_type) (audit_dict l))
    raise e

  unfoldable pub execute_with_secret :
      (Bytes → Option String) → Lease → (Bytes → Consumed) → Action (Plane S V) Value
  unfolding take_material after_consumer
  execute_with_secret decode l consumer = do
    raw ← take_material l
    after_consumer decode l raw (consumer raw)

  unfoldable pub rebind_secret :
      (secret_id new_locator : String) → ℕ → Action (Plane S V) Descriptor
  unfolding descriptor set_item audit
  rebind_secret secret_id new_locator new_version = do
    d ← descriptor H mac S V now secret_id
    raise_if (not (is_active d.state)) (access_denied "only active secrets can be rebound")
    raise_if (leb new_version d.version)
        (value_error "new_version must be greater than current version")
    raise_if (new_locator == "") (value_error "new_locator is required")
    modify (λ s. record s {
      descriptors = set_item secret_id (record d { version = new_version }) s.descriptors;
      bindings = set_item secret_id new_locator s.bindings;
      leases = S.revoke secret_id s.leases;
    })
    audit H mac S V now "SECRET_REBOUND" (
        to_fields (
          ("secret_id", str secret_id)
          ∷ ("old_version", num d.version)
          ∷ ("new_version", num new_version)
          ∷ []))
    pure (record d { version = new_version })

  -- what `revoke_secret` and `destroy_secret` do alike
  unfoldable pub end_secret :
      String → String → Descriptor → SecretState → Action (Plane S V) Descriptor
  unfolding set_item remove_item audit
  end_secret event_type secret_id d state = do
    modify (λ s. record s {
      descriptors = set_item secret_id (record d { state = state }) s.descriptors;
      bindings = remove_item secret_id s.bindings;
      leases = S.revoke secret_id s.leases;
    })
    audit H mac S V now event_type
        (to_fields (("secret_id", str secret_id) ∷ ("version", num d.version) ∷ []))
    pure (record d { state = state })

  unfoldable pub revoke_secret : String → Action (Plane S V) Descriptor
  unfolding descriptor end_secret
  revoke_secret secret_id = do
    d ← descriptor H mac S V now secret_id
    raise_if (is_destroyed d.state) (access_denied "destroyed secret cannot be revoked")
    end_secret "SECRET_REVOKED" secret_id d revoked

  unfoldable pub destroy_bound : String → Descriptor → Action (Plane S V) Descriptor
  unfolding on_vault end_secret
  destroy_bound secret_id d = do
    bound ← gets (λ s. lookup secret_id s.bindings)
    locator ← or_raise bound (not_available "secret binding is unavailable")
    on_vault H mac S V now (V.destroy locator)
    end_secret "SECRET_DESTROYED" secret_id d destroyed

  unfoldable pub destroy_secret : String → Action (Plane S V) Descriptor
  unfolding descriptor destroy_bound
  destroy_secret secret_id = do
    d ← descriptor H mac S V now secret_id
    if is_destroyed d.state then pure d else destroy_bound secret_id d
