-- ===== src/Tests/Gate.antt =====
-- The human-data boundary, the Ω gate and the transferable state at concrete inputs.
use gpt_project_bridge.Base.{String, ◌≡◌, refl, ◌↔◌, true, false, some, List, [], ◌∷◌, ok, Result}
use gpt_project_bridge.Json.{Fields, str, bool, num, dict, to_fields}
use gpt_project_bridge.Core.{pass, hold, HdbResult, Checks, evaluate_hdb, omega_gate}
use gpt_project_bridge.Core.Gate.{IsConsented, IsAdmissible, evaluate_hdb-pass_iff, omega_gate_lem}
use gpt_project_bridge.ModelBridge.Defs.{assert_transferable_state}
use gpt_project_bridge.ModelBridge.Transfer.{
  IsAllowed, IsPublic, RootHas, FieldsHave, assert_transferable_state_iff,
}

abbrev consented : Fields
consented = to_fields (("consent", bool true) ∷ ("purpose", str "research") ∷ [])

evaluate_hdb-pass_iff_example :
    ((evaluate_hdb (some consented)).decision ≡ pass) ↔ IsConsented consented
evaluate_hdb-pass_iff_example = evaluate_hdb-pass_iff consented

abbrev passed : HdbResult
passed = record { decision = pass; reason = "authorized representation" }

abbrev unsigned : Checks
unsigned = record { ontology_ok = true; signature_valid = false; transition_valid = true }

omega_gate_lem_example :
    (((omega_gate passed "COMMIT" unsigned).0 ≡ pass) ↔ IsAdmissible passed unsigned)
    × (((omega_gate passed "COMMIT" unsigned).0 ≡ hold)
        ↔ ((unsigned.ontology_ok ≡ true) × (passed.decision ≡ hold)))
    × (omega_gate passed "COMMIT" unsigned ≡ omega_gate passed "READ" unsigned)
omega_gate_lem_example = omega_gate_lem passed "COMMIT" "READ" unsigned

abbrev leaky : Fields
leaky = to_fields (("kind", str "note") ∷ ("state", dict (("apiKey", num 1) ∷ [])) ∷ [])

assert_transferable_state_iff_example : (assert_transferable_state leaky ≡ ok tt) ↔ (
    ((key : String) → RootHas key leaky → IsAllowed key)
    × ((key : String) → FieldsHave key leaky → IsPublic key))
assert_transferable_state_iff_example = assert_transferable_state_iff leaky

leaky_refused :
    assert_transferable_state leaky
    ≡ Result.err
        (gpt_project_bridge.Base.value_error "forbidden hidden/private field at $.state.apiKey")
unfolding assert_transferable_state
leaky_refused = refl
