-- ===== src/Core.antt =====
-- app/core.py: the human-data boundary and the Ω gate.
pub mod Gate
use gpt_project_bridge.Base.{
  String, Bool, true, false, not, ◌&&◌, Option, none, some, List, [], ◌∷◌, any_of, ◌==◌,
  if◌then◌else◌,
}
use gpt_project_bridge.Json.{Fields, get, is_true, is_text, truthy}

pub data Decision : Type 0 where
  pass block hold : Decision

-- `decision.value`
unfoldable pub value : Decision → String
value pass = "PASS"
value block = "BLOCK"
value hold = "HOLD"

pub record HdbResult : Type 0 where
  pub decision : Decision
  pub reason : String

abbrev pub blocked_actions : List String
blocked_actions = "COMMIT" ∷ "EXECUTE" ∷ "EXPORT" ∷ "PUBLISH" ∷ "PROVIDER_EXPOSURE" ∷ []

result : Decision → String → HdbResult
result d r = record { decision = d; reason = r }

-- the guards of `evaluate_hdb` in their order, over the answers of their tests
unfoldable pub boundary : Bool → Bool → Bool → Bool → Bool → Bool → HdbResult
unfolding result
boundary serialize third_party agreed secret consent purpose =
    if serialize
    then result block "H must not be serialized"
    else if third_party && not agreed
    then result block "third-party data without consent"
    else if secret
    then result block "SECRET is non-exportable"
    else if not consent
    then result hold "human data requires explicit consent"
    else if not purpose
    then result hold "purpose binding required"
    else result pass "authorized representation"

-- The check of the class `HDBResult` in front holds of the class that the module declares.
unfoldable pub evaluate_hdb : Option Fields → HdbResult
unfolding result
evaluate_hdb none = result pass "no human data"
evaluate_hdb (some human) =
    boundary (is_true (get "serialize_human" human)) (is_true (get "third_party" human))
      (is_true (get "third_party_consent" human)) (is_text "SECRET" (get "sensitivity" human))
      (is_true (get "consent" human)) (truthy (get "purpose" human))

-- The arguments `ontology_ok`, `signature_valid` and `transition_valid`.
pub record Checks : Type 0 where
  pub ontology_ok : Bool
  pub signature_valid : Bool
  pub transition_valid : Bool

unfoldable pub omega_gate : HdbResult → String → Checks → Decision × String
omega_gate hdb action c =
    if not c.ontology_ok then (block, "ontology violation") else elim hdb.decision [
      | block ↦ (block, hdb.reason)
      | hold ↦ (hold, hdb.reason)
      | pass ↦
          if not c.signature_valid
          then (block, "invalid signature")
          else if c.signature_valid && not c.transition_valid
          then (block, "valid_signature != valid_transition")
          else if any_of (λ a. a == action) blocked_actions && not c.transition_valid
          then (block, "critical action denied")
          else (pass, "admissible transition")
    ]
