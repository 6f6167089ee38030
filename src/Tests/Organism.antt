-- ===== src/Tests/Organism.antt =====
-- The governed loop at concrete inputs.
use gpt_project_bridge.Base.{◌≡◌, ◌≢◌, refl, true, false, none, [], ◌∷◌, ok, any_of}
use gpt_project_bridge.Json.{end, str, to_fields, put}
use gpt_project_bridge.Host.{stable_hash}
use gpt_project_bridge.Core.{block, omega_gate}
use gpt_project_bridge.Organism.State.{
  InheritedConstraint, Organism, Evaluation, evaluation, state_payload, cached, state_root,
  mark_state_mutated, sorted_constraints,
}
use gpt_project_bridge.Organism.Loop.{
  ConstraintCandidate, AuthorizationGrant, LoopResult, is_evaluation, the_evaluation, evaluations,
  verify_grant, new_constraint, authorize_constraint,
}
use gpt_project_bridge.Organism.Evaluate.{
  Proposed, evaluate, first_match, ruling, conclude, event_receipt, event_evidence,
  record_evaluation,
}
use gpt_project_bridge.Organism.Sound.{IsFresh, Decided, ruling_of, evaluate_lem}
use gpt_project_bridge.Organism.Authority.{IsGranted, authorize_constraint_lem}
use gpt_project_bridge.Organism.Promotion.{OnlyEvaluation, IsOf, Promoted}
use gpt_project_bridge.Evidence.{receipt_hash, evidence_receipt, evidence_core, merkle_pair}
use gpt_project_bridge.Tests.Ledger.{constant_host, digest}

abbrev rejected : Evaluation
rejected = record {
  event_id = "e-1";
  runtime_id = "r-1";
  proposal = to_fields (("action", str "PUBLISH") ∷ []);
  gate_inputs = end;
  decision = block;
  reason = "invalid signature";
  matched_constraint_id = none;
  receipt_hash = digest;
}

abbrev organism : Organism
organism = record {
  organism_id = "o-1";
  runtime_id = "r-1";
  authority_secrets = ("council", "secret") ∷ [];
  gate_fingerprint = digest;
  constitutional_contract_hash = digest;
  constraints = [];
  lineage = evaluation rejected ∷ [];
  state_generation = 1;
  cached_state_root = none;
  cached_state_generation = none;
}

abbrev proposed : Proposed
proposed = record {
  event_id = "e-2";
  proposal = to_fields (("action", str "PUBLISH") ∷ []);
  human = none;
  checks = record { ontology_ok = false; signature_valid = true; transition_valid = true };
}

abbrev result : LoopResult
result = record {
  event_id = "e-2";
  decision = block;
  reason = "ontology violation";
  matched_constraint_id = none;
  state_root = digest;
  evidence = to_fields (
      ("schema", str "matverse.evidence-receipt.v1")
      ∷ ("event_type", str "ORGANISM_EVALUATION")
      ∷ ("input_hash", str digest)
      ∷ ("output_hash", str digest)
      ∷ ("merkle_root", str digest)
      ∷ ("receipt_hash", str digest)
      ∷ []);
}

abbrev evaluated : Organism
evaluated = (evaluate constant_host proposed organism).1

evaluate-result : evaluate constant_host proposed organism ≡ (ok result, evaluated)
unfolding evaluate is_evaluation first_match sorted_constraints state_root cached conclude
    record_evaluation event_evidence evidence_receipt evidence_core merkle_pair put
    mark_state_mutated ruling stable_hash event_receipt omega_gate receipt_hash
evaluate-result = refl

evaluate_lem_example :
    (any_of (is_evaluation "e-2") organism.lineage ≡ false)
    × Decided constant_host proposed organism (ruling_of constant_host result)
    × (digest ≡ stable_hash constant_host (state_payload evaluated))
    × IsFresh constant_host evaluated
evaluate_lem_example =
    evaluate_lem constant_host proposed organism {result = result} {o' = evaluated} evaluate-result

abbrev candidate : ConstraintCandidate
candidate = record {
  candidate_id = digest;
  source_event_id = "e-1";
  source_receipt_hash = digest;
  generator_id = "gpt";
  match_json = "{\"action\":\"PUBLISH\"}";
  reason = "invalid signature";
}

abbrev grant : AuthorizationGrant
grant = record {
  principal_id = "council";
  capability = "organism.constraint.authorize";
  candidate_id = digest;
  signature = digest;
}

abbrev promoted : InheritedConstraint
promoted = new_constraint constant_host candidate grant digest

abbrev after : Organism
after = (authorize_constraint constant_host candidate grant organism).1

authorize_constraint-promoted :
    authorize_constraint constant_host candidate grant organism ≡ (ok promoted, after)
unfolding authorize_constraint verify_grant the_evaluation evaluations
authorize_constraint-promoted = refl

authorize_constraint_lem_example :
    IsGranted constant_host grant digest organism
    × (promoted.authorizer_id ≢ promoted.generator_id)
    × ((source : Evaluation) × OnlyEvaluation "e-1" organism.lineage source
        × (source.decision ≡ block)
        × (source.receipt_hash ≡ digest))
    × IsOf candidate grant promoted
    × Promoted promoted organism after
authorize_constraint_lem_example =
    authorize_constraint_lem constant_host candidate grant organism {k = promoted} {o' = after}
      authorize_constraint-promoted
