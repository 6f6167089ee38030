-- ===== src/Registry/Keys.antt =====
-- `AuthorityKeyRecord` of app/federation_key_registry.py. Timestamps are natural numbers, as the HTTP
-- models of app/federation_trust_plane.py demand.
pub mod Effective
use Prim.Native.String
use gpt_project_bridge.Base.{
  ℕ, String, ◌<>◌, Bool, true, false, not, ◌&&◌, ◌||◌, Option, none, some, List, [], ◌∷◌, ◌++◌,
  Result, ok, err, value_error, ◌&>◌, require, ltb, leb, is_none, ◌==◌, if◌then◌else◌,
}
use gpt_project_bridge.Base.Text.{has_text, is_sha256_hex}
use gpt_project_bridge.Json.{Json, str, num, opt_str, dict}
use gpt_project_bridge.Host.{Host, stable_hash}

abbrev pub ed25519_algorithm : String
ed25519_algorithm = "Ed25519"

unfoldable pub require_text : String → String → Result (Unit {0})
unfolding has_text
require_text value name =
    require (has_text value) (value_error (name <> " must be a non-empty string"))

-- the text behind a prefix
after : String → String → Option String
after String.[] s = some s
after (String.◌∷◌ c p) String.[] = none
after (String.◌∷◌ c p) (String.◌∷◌ d s) =
    let rest = after p s in if String.◌∷◌ c "" == String.◌∷◌ d "" then rest else none

hex_tail : Option String → Bool
unfolding is_sha256_hex
hex_tail none = false
hex_tail (some s) = is_sha256_hex s

-- `^ed25519:[0-9a-f]{64}$`
unfoldable pub is_key_id : String → Bool
unfolding after hex_tail
is_key_id s = hex_tail (after "ed25519:" s)

unfoldable pub authority_key_id : Host → String → Result String
unfolding is_sha256_hex
authority_key_id H public_key_hex =
    require (is_sha256_hex public_key_hex)
      (value_error "public_key_hex must be 32-byte lowercase Ed25519 raw hex")
    &> ok ("ed25519:" <> H.sha256_of_hex public_key_hex)

pub record KeyRecord : Type 0 where
  pub authority_id : String
  pub key_id : String
  pub public_key_hex : String
  pub valid_from : ℕ
  pub valid_until : ℕ
  pub previous_key_id : Option String
  pub algorithm : String
  pub revoked_at : Option ℕ
  pub revocation_reason : Option String

unfoldable pub matches_key : Host → KeyRecord → Result String → Result (Unit {0})
matches_key H r (ok id) =
    require (r.key_id == id) (value_error "key_id does not match public_key_hex")
matches_key H r (err e) = err e

unfoldable pub check_previous : KeyRecord → Option String → Result (Unit {0})
unfolding is_key_id
check_previous r none = ok tt
check_previous r (some previous) =
    require (is_key_id previous) (value_error "previous_key_id must be a canonical Ed25519 key id")
    &> require (not (previous == r.key_id)) (value_error "key cannot rotate from itself")

-- `value or ""`
abbrev pub or_empty : Option String → String
or_empty none = ""
or_empty (some s) = s

unfoldable pub check_revocation : KeyRecord → Option ℕ → Result (Unit {0})
unfolding require_text
check_revocation r none =
    require (is_none r.revocation_reason) (value_error "revocation_reason requires revoked_at")
check_revocation r (some t) =
    require (leb r.valid_from t && ltb t r.valid_until)
      (value_error "revoked_at must fall inside the key validity window")
    &> require_text (or_empty r.revocation_reason) "revocation_reason"

-- `__post_init__`
unfoldable pub check_record : Host → KeyRecord → Result (Unit {0})
check_record H r =
    require_text r.authority_id "authority_id"
    &> require (is_key_id r.key_id) (value_error "key_id must be ed25519:<sha256-public-key>")
    &> matches_key H r (authority_key_id H r.public_key_hex)
    &> require (r.algorithm == ed25519_algorithm) (value_error "algorithm must be Ed25519")
    &> require (ltb r.valid_from r.valid_until)
        (value_error "key valid_until must be greater than valid_from")
    &> check_previous r r.previous_key_id
    &> check_revocation r r.revoked_at

unfoldable pub registration_payload : KeyRecord → Json
registration_payload r = dict (
    ("schema", str "matverse.federation-authority-key.v1")
    ∷ ("authority_id", str r.authority_id)
    ∷ ("key_id", str r.key_id)
    ∷ ("algorithm", str r.algorithm)
    ∷ ("public_key_hex", str r.public_key_hex)
    ∷ ("valid_from", num r.valid_from)
    ∷ ("valid_until", num r.valid_until)
    ∷ ("previous_key_id", opt_str r.previous_key_id)
    ∷ [])

-- `_hash_payload` is `stable_hash` by another name.
unfoldable pub registration_sha256 : Host → KeyRecord → String
unfolding registration_payload
registration_sha256 H r = stable_hash H (registration_payload r)

-- `revoked_at is None or timestamp < revoked_at`
abbrev pub before_revocation : Option ℕ → ℕ → Bool
before_revocation none t = true
before_revocation (some r) t = ltb t r

unfoldable pub effective_at : KeyRecord → ℕ → Bool
effective_at r t =
    if not (leb r.valid_from t && ltb t r.valid_until)
    then false
    else before_revocation r.revoked_at t

abbrev revoked_reason : Option ℕ → ℕ → String → List String
revoked_reason none t role = []
revoked_reason (some r) t role = if leb r t then (role <> "_key_revoked") ∷ [] else []

unfoldable pub key_state_reasons : KeyRecord → ℕ → String → List String
key_state_reasons r t role =
    (if ltb t r.valid_from then (role <> "_key_not_yet_valid") ∷ [] else [])
    ++ ((if leb r.valid_until t then (role <> "_key_expired") ∷ [] else [])
        ++ revoked_reason r.revoked_at t role)
