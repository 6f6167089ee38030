-- ===== src/Organism/Evaluate.antt =====
-- `GovernedOrganism.evaluate` of app/organism_loop.py.
use gpt_project_bridge.Base.{
  String, ◌<>◌, Bool, false, true, not, ◌&&◌, Option, none, some, List, [], ◌∷◌, ◌++◌, Result, ok,
  err, value_error, type_error, Action, pure, lift, modify, gets, raise_if, ◌>>=◌, ◌>>◌, ◌==◌,
  any_of, if◌then◌else◌,
}
use gpt_project_bridge.Json.{
  Json, Fields, str, bool, obj, null, opt_str, to_fields, get, get_or, fields_in, truthy,
}
use gpt_project_bridge.Host.{Host}
use gpt_project_bridge.Core.{Decision, block, value, Checks, evaluate_hdb, omega_gate}
use gpt_project_bridge.Evidence.{receipt_hash, evidence_receipt}
use gpt_project_bridge.Organism.State.{
  InheritedConstraint, evaluation, Organism, sorted_constraints, mark_state_mutated, state_root,
}
use gpt_project_bridge.Organism.Loop.{LoopResult, is_evaluation, is_empty}

-- The arguments of `evaluate`.
pub record Proposed : Type 0 where
  pub event_id : String
  pub proposal : Fields
  pub human : Option Fields
  pub checks : Checks

-- The decision on a proposal, its reason and the constraint that matched.
pub record Ruling : Type 0 where
  pub decision : Decision
  pub reason : String
  pub matched_id : Option String

abbrev human_json : Option Fields → Json
human_json none = null
human_json (some human) = obj human

gate_inputs : Proposed → Fields
gate_inputs p = to_fields (
    ("human", human_json p.human)
    ∷ ("ontology_ok", bool p.checks.ontology_ok)
    ∷ ("signature_valid", bool p.checks.signature_valid)
    ∷ ("transition_valid", bool p.checks.transition_valid)
    ∷ [])

-- `bool(match) and all(key in proposal and proposal[key] == value …)`
unfoldable pub match_holds : Fields → Option Json → Result Bool
unfolding is_empty
match_holds proposal none = err (value_error "JSONDecodeError")
match_holds proposal (some (obj fs)) = ok (not (is_empty fs) && fields_in fs proposal)
match_holds proposal (some v) =
    if truthy (some v) then err (type_error "object has no attribute 'items'") else ok false

module _ (H : Host) where
  -- `_matches`
  unfoldable pub matches : String → Fields → Result Bool
  matches match_json proposal = match_holds proposal (H.json_loads match_json)

  -- `next((… for key in sorted(self._constraints) if _matches(…)), None)`
  unfoldable pub first_match :
      Fields → List InheritedConstraint → Result (Option InheritedConstraint)
  first_match proposal [] = ok none
  first_match proposal (c ∷ cs) =
      let rest = first_match proposal cs in
      elim (matches c.match_json proposal) [
        | ok true ↦ ok (some c)
        | ok false ↦ rest
        | err e ↦ err e
      ]

  gate_ruling : Decision × String → Ruling
  gate_ruling (decision, reason) = record {
    decision = decision;
    reason = reason;
    matched_id = none;
  }

  -- an inherited constraint blocks; without one the gate decides
  unfoldable pub ruling : Proposed → Option InheritedConstraint → Ruling
  unfolding gate_ruling
  ruling p (some c) = record {
    decision = block;
    reason = "inherited constraint: " <> c.reason;
    matched_id = some c.constraint_id;
  }
  ruling p none = gate_ruling (
      omega_gate (evaluate_hdb p.human) (H.py_str (get_or (str "") (get "action" p.proposal)))
        p.checks)

  unfoldable pub event_core : Proposed → Ruling → String → Organism → Fields
  unfolding gate_inputs
  event_core p r before o = to_fields (
      ("event_id", str p.event_id)
      ∷ ("runtime_id", str o.runtime_id)
      ∷ ("proposal", obj p.proposal)
      ∷ ("gate_inputs", obj (gate_inputs p))
      ∷ ("decision", str (value r.decision))
      ∷ ("reason", str r.reason)
      ∷ ("matched_constraint_id", opt_str r.matched_id)
      ∷ ("state_root_before", str before)
      ∷ ("constitutional_contract_hash", str o.constitutional_contract_hash)
      ∷ [])

  unfoldable pub event_receipt : Proposed → Ruling → String → Organism → String
  event_receipt p r before o =
      receipt_hash H "ORGANISM_EVALUATION" (event_core p r before o)
        (to_fields (("decision", str (value r.decision)) ∷ ("reason", str r.reason) ∷ []))

  -- the receipt itself, with its hash
  unfoldable pub event_evidence : Proposed → Ruling → String → Organism → Fields
  event_evidence p r before o =
      evidence_receipt H "ORGANISM_EVALUATION" (event_core p r before o)
        (to_fields (("decision", str (value r.decision)) ∷ ("reason", str r.reason) ∷ []))

  unfoldable pub record_evaluation : Proposed → Ruling → String → Organism → Organism
  unfolding gate_inputs
  record_evaluation p r receipt o = mark_state_mutated (record o {
    lineage =
        o.lineage
        ++ evaluation (record {
          event_id = p.event_id;
          runtime_id = o.runtime_id;
          proposal = p.proposal;
          gate_inputs = gate_inputs p;
          decision = r.decision;
          reason = r.reason;
          matched_constraint_id = r.matched_id;
          receipt_hash = receipt;
        })
          ∷ [];
  })

  abbrev pub report : Proposed → Ruling → (evidence : Fields) → (after : String) → LoopResult
  report p r evidence after = record {
    event_id = p.event_id;
    decision = r.decision;
    reason = r.reason;
    matched_constraint_id = r.matched_id;
    state_root = after;
    evidence = evidence;
  }

  -- what follows on the root before the evaluation
  unfoldable pub conclude : Proposed → Ruling → String → Action Organism LoopResult
  conclude p r before = do
    receipt ← gets (event_receipt p r before)
    evidence ← gets (event_evidence p r before)
    modify (record_evaluation p r receipt)
    after ← state_root H
    pure (report p r evidence after)

  unfoldable pub evaluate : Proposed → Action Organism LoopResult
  evaluate p = do
    raise_if (p.event_id == "") (value_error "event_id is required")
    seen ← gets (λ o. any_of (is_evaluation p.event_id) o.lineage)
    raise_if seen (value_error "event_id must be unique")
    found ← gets (λ o. first_match p.proposal (sorted_constraints o.constraints))
    matched ← lift found
    before ← state_root H
    conclude p (ruling p matched) before
