-- ===== src/SecretPlane/Data.antt =====
-- Descriptors, policies and leases of app/secret_plane.py. Times and counts are natural numbers: the
-- code refuses the negative ones.
use gpt_project_bridge.Base.{
  ℕ, String, Bool, true, false, not, ◌&&◌, ◌||◌, Option, none, some, List, [], ◌∷◌, map, Result,
  value_error, ◌&>◌, require, ltb, leb, any_of, ◌==◌, if◌then◌else◌,
}
use gpt_project_bridge.Json.{Json, Fields, str, num, list, opt_str, opt_num, to_fields}

abbrev pub schema_version : String
schema_version = "matverse.secret-plane.v1"

abbrev pub lease_schema_version : String
lease_schema_version = "matverse.secret-lease.v1"

pub data SecretState : Type 0 where
  active revoked destroyed : SecretState

unfoldable pub state_value : SecretState → String
state_value active = "ACTIVE"
state_value revoked = "REVOKED"
state_value destroyed = "DESTROYED"

abbrev pub is_active : SecretState → Bool
is_active active = true
is_active _ = false

pub data StorageClass : Type 0 where
  environment platform_secret os_keychain hsm tpm external_vault test_memory : StorageClass

unfoldable pub class_value : StorageClass → String
class_value environment = "ENVIRONMENT"
class_value platform_secret = "PLATFORM_SECRET"
class_value os_keychain = "OS_KEYCHAIN"
class_value hsm = "HSM"
class_value tpm = "TPM"
class_value external_vault = "EXTERNAL_VAULT"
class_value test_memory = "TEST_MEMORY"

pub record Descriptor : Type 0 where
  pub secret_id : String
  pub kind : String
  pub owner : String
  pub purpose : String
  pub provider : Option String
  pub storage_class : StorageClass
  pub version : ℕ
  pub created_at : ℕ
  pub expires_at : Option ℕ
  pub rotation_due_at : Option ℕ
  pub state : SecretState

-- `t is None or t > created_at`
later_than : ℕ → Option ℕ → Bool
later_than created none = true
later_than created (some t) = ltb created t

-- its `__post_init__`
unfoldable pub check_descriptor : Descriptor → Result (Unit {0})
unfolding later_than
check_descriptor d =
    require
      (not (d.secret_id == "")
        && (not (d.kind == "") && (not (d.owner == "") && not (d.purpose == ""))))
      (value_error "secret_id, kind, owner and purpose are required")
    &> require (leb 1 d.version) (value_error "secret version must be >= 1")
    &> require (later_than d.created_at d.expires_at)
        (value_error "expires_at must be greater than created_at")
    &> require (later_than d.created_at d.rotation_due_at)
        (value_error "rotation_due_at must be greater than created_at")

unfoldable pub descriptor_dict : Descriptor → Fields
unfolding class_value state_value
descriptor_dict d = to_fields (
    ("secret_id", str d.secret_id)
    ∷ ("kind", str d.kind)
    ∷ ("owner", str d.owner)
    ∷ ("purpose", str d.purpose)
    ∷ ("provider", opt_str d.provider)
    ∷ ("storage_class", str (class_value d.storage_class))
    ∷ ("version", num d.version)
    ∷ ("created_at", num d.created_at)
    ∷ ("expires_at", opt_num d.expires_at)
    ∷ ("rotation_due_at", opt_num d.rotation_due_at)
    ∷ ("state", str (state_value d.state))
    ∷ [])

pub record Policy : Type 0 where
  pub allowed_actors : List String
  pub allowed_capabilities : List String
  pub allowed_scopes : List String
  pub max_ttl_seconds : ℕ
  pub max_uses : ℕ

abbrev has_some : List String → Bool
has_some [] = false
has_some (s ∷ r) = true

-- its `__post_init__`
unfoldable pub check_secret_policy : Policy → Result (Unit {0})
check_secret_policy p =
    require
      (has_some p.allowed_actors && (has_some p.allowed_capabilities && has_some p.allowed_scopes))
      (value_error "secret policy allowlists must be non-empty")
    &> require (leb 1 p.max_ttl_seconds) (value_error "max_ttl_seconds must be >= 1")
    &> require (leb 1 p.max_uses) (value_error "max_uses must be >= 1")

texts : List String → Json
texts ss = list (map str ss)

unfoldable pub policy_dict : Policy → Fields
unfolding texts
policy_dict p = to_fields (
    ("allowed_actors", texts p.allowed_actors)
    ∷ ("allowed_capabilities", texts p.allowed_capabilities)
    ∷ ("allowed_scopes", texts p.allowed_scopes)
    ∷ ("max_ttl_seconds", num p.max_ttl_seconds)
    ∷ ("max_uses", num p.max_uses)
    ∷ [])

pub record Lease : Type 0 where
  pub lease_id : String
  pub secret_id : String
  pub secret_version : ℕ
  pub actor : String
  pub capability : String
  pub scope : String
  pub issued_at : ℕ
  pub expires_at : ℕ
  pub max_uses : ℕ
  pub nonce : String
  pub signature : String

unfoldable pub signed_payload : Lease → Fields
signed_payload l = to_fields (
    ("schema", str lease_schema_version)
    ∷ ("lease_id", str l.lease_id)
    ∷ ("secret_id", str l.secret_id)
    ∷ ("secret_version", num l.secret_version)
    ∷ ("actor", str l.actor)
    ∷ ("capability", str l.capability)
    ∷ ("scope", str l.scope)
    ∷ ("issued_at", num l.issued_at)
    ∷ ("expires_at", num l.expires_at)
    ∷ ("max_uses", num l.max_uses)
    ∷ ("nonce", str l.nonce)
    ∷ [])

unfoldable pub audit_dict : Lease → Fields
audit_dict l = to_fields (
    ("lease_id", str l.lease_id)
    ∷ ("secret_id", str l.secret_id)
    ∷ ("secret_version", num l.secret_version)
    ∷ ("actor", str l.actor)
    ∷ ("capability", str l.capability)
    ∷ ("scope", str l.scope)
    ∷ ("issued_at", num l.issued_at)
    ∷ ("expires_at", num l.expires_at)
    ∷ ("max_uses", num l.max_uses)
    ∷ [])

-- `DisclosureGate._match` and `evaluate`; the text is the reason
unfoldable pub is_allowed : String → List String → Bool
is_allowed value allowlist = any_of (λ a. a == "*") allowlist || any_of (λ a. a == value) allowlist

unfoldable pub disclosure : Policy → (actor capability scope : String) → Bool × String
unfolding is_allowed
disclosure p actor capability scope =
    if not (is_allowed actor p.allowed_actors)
    then (false, "actor_not_allowed")
    else if not (is_allowed capability p.allowed_capabilities)
    then (false, "capability_not_allowed")
    else if not (is_allowed scope p.allowed_scopes)
    then (false, "scope_not_allowed")
    else (true, "allowed")
