-- ===== src/Federation/Relation.antt =====
-- `FederationRelation`, its witness, and the request and the decision of a gate (app/federation_relation.py).
-- Timestamps are natural numbers.
use gpt_project_bridge.Base.{
  ℕ, String, ◌<>◌, Bool, true, false, not, ◌&&◌, Option, List, [], ◌∷◌, map, Result, value_error,
  ◌&>◌, require, ltb, any_of, all_of, ◌==◌, if◌then◌else◌,
}
use gpt_project_bridge.Base.Text.{has_text, is_sha256_hex, sort_texts}
use gpt_project_bridge.Base.Text.Ascii.{ensure_ascii}
use gpt_project_bridge.Json.{Json, str, num, list, dict}
use gpt_project_bridge.Json.Dump.{canonical_json}
use gpt_project_bridge.Host.{Host}
use gpt_project_bridge.Registry.Keys.{require_text}

abbrev pub hmac_shared_secret_scheme : String
hmac_shared_secret_scheme = "HMAC-SHA256-SHARED-SECRET-V1"

pub data RelationStatus : Type 0 where
  active revoked : RelationStatus

unfoldable pub status_value : RelationStatus → String
status_value active = "ACTIVE"
status_value revoked = "REVOKED"

unfoldable pub require_sha256 : String → String → Result (Unit {0})
unfolding is_sha256_hex
require_sha256 value name =
    require (is_sha256_hex value) (value_error (name <> " must be a lowercase SHA-256 hex digest"))

pub record RelationWitness : Type 0 where
  pub scheme : String
  pub payload_sha256 : String
  pub source_hmac_sha256 : String
  pub target_hmac_sha256 : String

-- its `__post_init__`
unfoldable pub check_witness : RelationWitness → Result (Unit {0})
unfolding require_text require_sha256
check_witness w =
    require_text w.scheme "scheme"
    &> require_sha256 w.payload_sha256 "payload_sha256"
    &> require_sha256 w.source_hmac_sha256 "source_hmac_sha256"
    &> require_sha256 w.target_hmac_sha256 "target_hmac_sha256"

-- a witness of this scheme, or of another class
pub data Witness : Type 0 where
  hmac_witness : RelationWitness → Witness
  foreign : (scheme payload_sha256 : String) → Witness

pub record Relation : Type 0 where
  pub relation_id : String
  pub source_domain : String
  pub target_domain : String
  pub source_authority : String
  pub target_authority : String
  pub contract_hash : String
  pub capabilities : List String
  pub valid_from : ℕ
  pub valid_until : ℕ
  pub status : RelationStatus
  pub evidence_policy : String
  pub witness_scheme : String
  pub witness : Option Witness

-- `set(texts)`, to be sorted
unfoldable pub distinct : List String → List String
distinct [] = []
distinct (s ∷ r) = let rest = distinct r in if any_of (λ t. t == s) r then rest else s ∷ rest

unfoldable pub texts_eq : List String → List String → Bool
texts_eq [] [] = true
texts_eq (s ∷ r) (t ∷ q) = s == t && texts_eq r q
texts_eq _ _ = false

abbrev some_of : List String → Bool
some_of [] = false
some_of (s ∷ r) = true

-- its `__post_init__`
unfoldable pub check_relation : Relation → Result (Unit {0})
unfolding require_text require_sha256 has_text distinct texts_eq sort_texts
check_relation r =
    require_text r.relation_id "relation_id"
    &> require_text r.source_domain "source_domain"
    &> require_text r.target_domain "target_domain"
    &> require_text r.source_authority "source_authority"
    &> require_text r.target_authority "target_authority"
    &> require_text r.evidence_policy "evidence_policy"
    &> require_text r.witness_scheme "witness_scheme"
    &> require (not (r.source_domain == r.target_domain))
        (value_error "federation relation must cross distinct domains")
    &> require (not (r.source_authority == r.target_authority))
        (value_error "federation relation requires distinct authorities")
    &> require_sha256 r.contract_hash "contract_hash"
    &> require (ltb r.valid_from r.valid_until)
        (value_error "valid_until must be greater than valid_from")
    &> require (some_of r.capabilities) (value_error "at least one capability is required")
    &> require (all_of has_text r.capabilities)
        (value_error "capabilities must be non-empty strings")
    &> require (texts_eq r.capabilities (sort_texts (distinct r.capabilities)))
        (value_error "capabilities must be unique and lexicographically sorted")
    &> require (not (any_of (λ c. c == "*") r.capabilities))
        (value_error "wildcard federation capability is forbidden")

unfoldable pub canonical_payload : Relation → Json
unfolding status_value
canonical_payload r = dict (
    ("relation_id", str r.relation_id)
    ∷ ("source_domain", str r.source_domain)
    ∷ ("target_domain", str r.target_domain)
    ∷ ("source_authority", str r.source_authority)
    ∷ ("target_authority", str r.target_authority)
    ∷ ("contract_hash", str r.contract_hash)
    ∷ ("capabilities", list (map str r.capabilities))
    ∷ ("valid_from", num r.valid_from)
    ∷ ("valid_until", num r.valid_until)
    ∷ ("status", str (status_value r.status))
    ∷ ("evidence_policy", str r.evidence_policy)
    ∷ ("witness_scheme", str r.witness_scheme)
    ∷ [])

unfoldable pub payload_digest : Host → Relation → String
unfolding ensure_ascii canonical_json canonical_payload
payload_digest H r = H.sha256 (ensure_ascii (canonical_json (canonical_payload r)))

pub record Request : Type 0 where
  pub source_domain : String
  pub target_domain : String
  pub contract_hash : String
  pub capability : String

-- its `__post_init__`
unfoldable pub check_request_fields : Request → Result (Unit {0})
unfolding require_text require_sha256
check_request_fields q =
    require_text q.source_domain "source_domain"
    &> require_text q.target_domain "target_domain"
    &> require_text q.capability "capability"
    &> require_sha256 q.contract_hash "contract_hash"

pub record RelationDecision : Type 0 where
  pub relation_id : String
  pub admissible : Bool
  pub reasons : List String
  pub relation_sha256 : String
  pub evaluated_at : ℕ
