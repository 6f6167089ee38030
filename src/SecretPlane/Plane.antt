-- ===== src/SecretPlane/Plane.antt =====
-- `SecretPlane` of app/secret_plane.py over any vault and any store of leases. `now` is `int(clock())`
-- during a call, and `mac` the HMAC under the plane's signing key.
use gpt_project_bridge.Base.{
  ℕ, ◌+◌, String, Bool, true, false, not, ◌||◌, Option, none, some, List, [], ◌∷◌, ◌++◌, Exn,
  value_error, key_error, access_denied, not_available, Action, pure, raise, gets, modify, raise_if,
  or_raise, ◌>>=◌, ◌>>◌, count, ltb, leb, is_none, ◌==◌,
}
use gpt_project_bridge.Base.Dict.{lookup, set_item}
use gpt_project_bridge.Json.{Fields, str, num, obj, to_fields, put}
use gpt_project_bridge.Json.Dump.{canonical_json}
use gpt_project_bridge.Host.{Host, stable_hash}
use gpt_project_bridge.SecretPlane.Data.{
  schema_version, lease_schema_version, is_active, class_value, Descriptor, descriptor_dict, Policy,
  policy_dict, Lease, audit_dict, disclosure,
}
use gpt_project_bridge.SecretPlane.Store.{LeaseStore}
use gpt_project_bridge.SecretPlane.Material.{Vault, Value}

pub record Plane (S : LeaseStore) (V : Vault) : Type 0 where
  pub descriptors : List (String × Descriptor)
  pub policies : List (String × Policy)
  pub bindings : List (String × String)
  pub audit_events : List Fields
  pub leases : S.L
  pub vault : V.V

-- What is asked of `issue_lease`.
pub record Wanted : Type 0 where
  pub secret_id : String
  pub actor : String
  pub capability : String
  pub scope : String
  pub ttl_seconds : Option ℕ
  pub max_uses : Option ℕ

-- What a consumer does: it returns, or raises an error of the plane or another one.
pub data Consumed : Type 0 where
  returns : Value → Consumed
  raises_plane : Exn → Consumed
  raises_other : (error_type : String) → Exn → Consumed

-- `expires_at is not None and now >= expires_at`
unfoldable pub expired : ℕ → Option ℕ → Bool
expired now none = false
expired now (some t) = leb t now

abbrev pub or_default : ℕ → Option ℕ → ℕ
or_default default none = default
or_default default (some n) = n

unfoldable pub lease_base : ℕ → String → Wanted → Descriptor → (ttl uses : ℕ) → Fields
lease_base now nonce w d ttl uses = to_fields (
    ("schema", str lease_schema_version)
    ∷ ("secret_id", str w.secret_id)
    ∷ ("secret_version", num d.version)
    ∷ ("actor", str w.actor)
    ∷ ("capability", str w.capability)
    ∷ ("scope", str w.scope)
    ∷ ("issued_at", num now)
    ∷ ("expires_at", num (now + ttl))
    ∷ ("max_uses", num uses)
    ∷ ("nonce", str nonce)
    ∷ [])

module _ (H : Host) (mac : String → String) where
  -- `_sign_lease_payload`
  unfoldable pub sign_payload : Fields → String
  unfolding canonical_json
  sign_payload payload = mac (canonical_json (obj payload))

  unfoldable pub new_lease : ℕ → String → Wanted → Descriptor → (ttl uses : ℕ) → Lease
  unfolding lease_base sign_payload put stable_hash
  new_lease now nonce w d ttl uses =
      let base = lease_base now nonce w d ttl uses in
      let lease_id = stable_hash H (obj base) in
      record {
        lease_id = lease_id;
        secret_id = w.secret_id;
        secret_version = d.version;
        actor = w.actor;
        capability = w.capability;
        scope = w.scope;
        issued_at = now;
        expires_at = now + ttl;
        max_uses = uses;
        nonce = nonce;
        signature = sign_payload (put "lease_id" (str lease_id) base);
      }

  unfoldable pub audit_event : ℕ → String → Fields → Fields
  unfolding put stable_hash
  audit_event now event_type payload =
      let core = to_fields (
        ("schema", str schema_version)
        ∷ ("event_type", str event_type)
        ∷ ("timestamp", num now)
        ∷ ("payload", obj payload)
        ∷ []) in
      put "event_hash" (str (stable_hash H (obj core))) core

module _ (H : Host) (mac : String → String) (S : LeaseStore) (V : Vault) (now : ℕ) where
  -- `_audit`
  unfoldable pub audit : String → Fields → Action (Plane S V) (Unit {0})
  unfolding audit_event
  audit event_type payload = modify (λ s. record s {
    audit_events = s.audit_events ++ audit_event H mac now event_type payload ∷ [];
  })

  unfoldable pub descriptor : String → Action (Plane S V) Descriptor
  descriptor secret_id s =
      or_raise (lookup secret_id s.descriptors) (not_available "unknown secret_id") s

  unfoldable pub policy_of : String → Action (Plane S V) Policy
  policy_of secret_id s = or_raise (lookup secret_id s.policies) (key_error secret_id) s

  -- a change of the store of leases
  unfoldable pub on_leases : {A : Type 0} → Action S.L A → Action (Plane S V) A
  on_leases m s = let (r, l) = m s.leases in (r, record s { leases = l })

  unfoldable pub on_vault : {A : Type 0} → Action V.V A → Action (Plane S V) A
  on_vault m s = let (r, v) = m s.vault in (r, record s { vault = v })

  unfoldable pub register_secret : Descriptor → Policy → String → Action (Plane S V) (Unit {0})
  unfolding set_item audit descriptor_dict policy_dict put class_value
  register_secret d p locator = do
    known ← gets (λ s. lookup d.secret_id s.descriptors)
    raise_if (not (is_none known)) (value_error "secret_id already registered")
    raise_if (not (class_value d.storage_class == class_value V.storage_class))
        (value_error "descriptor storage_class does not match vault adapter")
    raise_if (locator == "") (value_error "opaque vault locator is required")
    modify (λ s. record s {
      descriptors = set_item d.secret_id d s.descriptors;
      policies = set_item d.secret_id p s.policies;
      bindings = set_item d.secret_id locator s.bindings;
    })
    audit "SECRET_REGISTERED"
        (to_fields (("descriptor", obj (descriptor_dict d)) ∷ ("policy", obj (policy_dict p)) ∷ []))

  -- a lease that the policy allows
  unfoldable pub hand_out : String → Wanted → Descriptor → Policy → Action (Plane S V) Lease
  unfolding new_lease on_leases audit audit_dict
  hand_out nonce w d p = do
    let ttl = or_default p.max_ttl_seconds w.ttl_seconds
    let uses = or_default p.max_uses w.max_uses
    raise_if (ltb ttl 1 || ltb p.max_ttl_seconds ttl) (access_denied "requested ttl exceeds policy")
    raise_if (ltb uses 1 || ltb p.max_uses uses) (access_denied "requested max_uses exceeds policy")
    raise_if (ltb (count nonce) 16) (value_error "nonce_factory must return at least 16 characters")
    on_leases (S.register (new_lease H mac now nonce w d ttl uses))
    audit "LEASE_ISSUED" (audit_dict (new_lease H mac now nonce w d ttl uses))
    pure (new_lease H mac now nonce w d ttl uses)

  unfoldable pub deny : Wanted → String → Action (Plane S V) Lease
  unfolding audit
  deny w reason = do
    audit "LEASE_DENIED" (
        to_fields (
          ("secret_id", str w.secret_id)
          ∷ ("actor", str w.actor)
          ∷ ("capability", str w.capability)
          ∷ ("scope", str w.scope)
          ∷ ("reason", str reason)
          ∷ []))
    raise (access_denied reason)

  -- by what the gate says
  unfoldable pub decide_lease :
      String → Wanted → Descriptor → Policy → Bool × String → Action (Plane S V) Lease
  unfolding hand_out deny
  decide_lease nonce w d p (true, reason) = hand_out nonce w d p
  decide_lease nonce w d p (false, reason) = deny w reason

  unfoldable pub check_live : Descriptor → Action (Plane S V) (Unit {0})
  unfolding expired
  check_live d =
      raise_if (not (is_active d.state)) (access_denied "secret is not active")
      >> raise_if (expired now d.expires_at) (access_denied "secret descriptor is expired")

  unfoldable pub issue_lease : String → Wanted → Action (Plane S V) Lease
  unfolding descriptor policy_of check_live disclosure decide_lease
  issue_lease nonce w = do
    d ← descriptor w.secret_id
    p ← policy_of w.secret_id
    check_live d
    decide_lease nonce w d p (disclosure p w.actor w.capability w.scope)
