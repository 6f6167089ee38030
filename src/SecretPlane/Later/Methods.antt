-- ===== src/SecretPlane/Later/Methods.antt =====
-- Every method of the plane, in whatever way it ends.
use gpt_project_bridge.Base.{ℕ, String, refl, Bool, true, false, Option, modify}
use gpt_project_bridge.Base.Steps.{
  Steps, Steps-pure, Steps-raise, Steps-lift, Steps-gets, Steps-or_raise, Steps-if, Steps-raise_if,
  Steps-bind,
}
use gpt_project_bridge.Base.Dict.{set_item, remove_item}
use gpt_project_bridge.Host.{Host}
use gpt_project_bridge.SecretPlane.Data.{Descriptor, Policy, Lease, SecretState}
use gpt_project_bridge.SecretPlane.Store.{LeaseStore}
use gpt_project_bridge.SecretPlane.Material.{Bytes, Vault, Value}
use gpt_project_bridge.SecretPlane.Plane.{
  Wanted, Consumed, returns, raises_plane, raises_other, descriptor, policy_of, register_secret,
  hand_out, deny, decide_lease, check_live, issue_lease,
}
use gpt_project_bridge.SecretPlane.Use.{
  verify_lease, check_used, use_once, fetch, take_material, judge_result, after_consumer,
  execute_with_secret, rebind_secret, end_secret, revoke_secret, destroy_bound, destroy_secret,
}
use gpt_project_bridge.SecretPlane.Later.{
  Later, Later-order, Later-leases, Later-audit, Later-on_vault, Later-register, Later-consume,
  Later-revoke, Since-refl,
}

ruleset later = (
  Steps-pure, Steps-raise, Steps-lift, Steps-gets, Steps-or_raise, Steps-raise_if, Steps-bind,
  Steps-if, Later-order, Later-audit, Later-on_vault, Later-register, Later-consume,
)

module _ (H : Host) (mac : String → String) (S : LeaseStore) (V : Vault) (now : ℕ) where
  descriptor-Later : (secret_id : String) → Steps (Later S V) (descriptor H mac S V now secret_id)
  unfolding descriptor
  descriptor-Later secret_id = record { at = λ s. (Steps-or_raise (Later-order S V) _ _).at s }

  policy_of-Later : (secret_id : String) → Steps (Later S V) (policy_of H mac S V now secret_id)
  unfolding policy_of
  policy_of-Later secret_id = record { at = λ s. (Steps-or_raise (Later-order S V) _ _).at s }

  add_secret :
      (d : Descriptor) (p : Policy) (locator : String)
      → Steps (Later S V) (
          modify (λ s. record s {
            descriptors = set_item d.secret_id d s.descriptors;
            policies = set_item d.secret_id p s.policies;
            bindings = set_item d.secret_id locator s.bindings;
          }))
  add_secret d p locator = Later-leases S V _ (λ s. refl) (λ s id. Since-refl (S.view s.leases id))

  pub register_secret-Later :
      (d : Descriptor) (p : Policy) (locator : String)
      → Steps (Later S V) (register_secret H mac S V now d p locator)
  unfolding register_secret
  register_secret-Later d p locator = search (later, add_secret) depth 12

  hand_out-Later :
      (nonce : String) (w : Wanted) (d : Descriptor) (p : Policy)
      → Steps (Later S V) (hand_out H mac S V now nonce w d p)
  unfolding hand_out
  hand_out-Later nonce w d p = search later depth 14

  deny-Later : (w : Wanted) (reason : String) → Steps (Later S V) (deny H mac S V now w reason)
  unfolding deny
  deny-Later w reason = search later depth 5

  decide_lease-Later :
      (nonce : String) (w : Wanted) (d : Descriptor) (p : Policy) (answer : Bool × String)
      → Steps (Later S V) (decide_lease H mac S V now nonce w d p answer)
  unfolding decide_lease
  decide_lease-Later nonce w d p (true, reason) = hand_out-Later nonce w d p
  decide_lease-Later nonce w d p (false, reason) = deny-Later w reason

  check_live-Later : (d : Descriptor) → Steps (Later S V) (check_live H mac S V now d)
  unfolding check_live
  check_live-Later d = search later depth 5

  pub issue_lease-Later :
      (nonce : String) (w : Wanted) → Steps (Later S V) (issue_lease H mac S V now nonce w)
  unfolding issue_lease
  issue_lease-Later nonce w =
      search (later, descriptor-Later, policy_of-Later, check_live-Later, decide_lease-Later) depth
        10

  pub verify_lease-Later : (l : Lease) → Steps (Later S V) (verify_lease H mac S V now l)
  unfolding verify_lease
  verify_lease-Later l = search (later, descriptor-Later, policy_of-Later) depth 20

  check_used-Later : (l : Lease) (b : Bool) → Steps (Later S V) (check_used H mac S V now l b)
  unfolding check_used
  check_used-Later l true = search later
  check_used-Later l false = search later depth 5

  pub use_once-Later : (l : Lease) → Steps (Later S V) (use_once H mac S V now l)
  unfolding use_once
  use_once-Later l = search (later, check_used-Later) depth 5

  pub fetch-Later : (l : Lease) → Steps (Later S V) (fetch H mac S V now l)
  unfolding fetch
  fetch-Later l = search later depth 14

  pub take_material-Later : (l : Lease) → Steps (Later S V) (take_material H mac S V now l)
  unfolding take_material
  take_material-Later l = search (later, verify_lease-Later, use_once-Later, fetch-Later) depth 8

  judge_result-Later :
      (decode : Bytes → Option String) (l : Lease) (raw : Bytes) (result : Value)
      → Steps (Later S V) (judge_result H mac S V now decode l raw result)
  unfolding judge_result
  judge_result-Later decode l raw result = search later depth 8

  pub after_consumer-Later :
      (decode : Bytes → Option String) (l : Lease) (raw : Bytes) (c : Consumed)
      → Steps (Later S V) (after_consumer H mac S V now decode l raw c)
  unfolding after_consumer
  after_consumer-Later decode l raw (returns result) = judge_result-Later decode l raw result
  after_consumer-Later decode l raw (raises_plane e) = search later
  after_consumer-Later decode l raw (raises_other error_type e) = search later depth 5

  pub execute_with_secret-Later :
      (decode : Bytes → Option String) (l : Lease) (consumer : Bytes → Consumed)
      → Steps (Later S V) (execute_with_secret H mac S V now decode l consumer)
  unfolding execute_with_secret
  execute_with_secret-Later decode l consumer =
      search (later, take_material-Later, after_consumer-Later) depth 5

  -- a change of the descriptor and of the binding, with the revocation
  change_secret :
      (secret_id : String) (d : Descriptor) (new_locator : String)
      → Steps (Later S V) (
          modify (λ s. record s {
            descriptors = set_item secret_id d s.descriptors;
            bindings = set_item secret_id new_locator s.bindings;
            leases = S.revoke secret_id s.leases;
          }))
  change_secret secret_id d new_locator =
      Later-revoke S V H mac now secret_id (set_item secret_id d) (set_item secret_id new_locator)

  drop_secret :
      (secret_id : String) (d : Descriptor)
      → Steps (Later S V) (
          modify (λ s. record s {
            descriptors = set_item secret_id d s.descriptors;
            bindings = remove_item secret_id s.bindings;
            leases = S.revoke secret_id s.leases;
          }))
  drop_secret secret_id d =
      Later-revoke S V H mac now secret_id (set_item secret_id d) (remove_item secret_id)

  pub rebind_secret-Later :
      (secret_id new_locator : String) (new_version : ℕ)
      → Steps (Later S V) (rebind_secret H mac S V now secret_id new_locator new_version)
  unfolding rebind_secret
  rebind_secret-Later secret_id new_locator new_version =
      search (later, descriptor-Later, change_secret) depth 14

  end_secret-Later :
      (event_type secret_id : String) (d : Descriptor) (state : SecretState)
      → Steps (Later S V) (end_secret H mac S V now event_type secret_id d state)
  unfolding end_secret
  end_secret-Later event_type secret_id d state = search (later, drop_secret) depth 8

  pub revoke_secret-Later :
      (secret_id : String) → Steps (Later S V) (revoke_secret H mac S V now secret_id)
  unfolding revoke_secret
  revoke_secret-Later secret_id = search (later, descriptor-Later, end_secret-Later) depth 8

  destroy_bound-Later :
      (secret_id : String) (d : Descriptor)
      → Steps (Later S V) (destroy_bound H mac S V now secret_id d)
  unfolding destroy_bound
  destroy_bound-Later secret_id d = search (later, end_secret-Later) depth 10

  pub destroy_secret-Later :
      (secret_id : String) → Steps (Later S V) (destroy_secret H mac S V now secret_id)
  unfolding destroy_secret
  destroy_secret-Later secret_id = search (later, descriptor-Later, destroy_bound-Later) depth 8
