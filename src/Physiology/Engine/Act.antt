-- ===== src/Physiology/Engine/Act.antt =====
-- What a cycle in app/physiology.py does with a proposal.
use gpt_project_bridge.Base.{
  String, ◌<>◌, Bool, true, false, Option, none, some, [], ◌∷◌, ok, runtime_error, type_error,
  Action, pure, raise, ◌>>=◌, ◌>>◌, if◌then◌else◌,
}
use gpt_project_bridge.Json.{Fields, str, bool, obj, to_fields}
use gpt_project_bridge.Host.{Host}
use gpt_project_bridge.Core.{Decision, pass, hold, value, Checks}
use gpt_project_bridge.Evidence.{evidence_receipt}
use gpt_project_bridge.Organism.Loop.{LoopResult}
use gpt_project_bridge.Organism.Evaluate.{Proposed, evaluate}
use gpt_project_bridge.Physiology.Journal.{JournalEvent}
use gpt_project_bridge.Physiology.Controller.{Floats}
use gpt_project_bridge.Physiology.Engine.{
  Engine, Outcome, returned, other, raised, Setting, on_organism,
}
use gpt_project_bridge.Physiology.Engine.Sense.{log}

-- The arguments of `tick`.
pub record Asked : Type 0 where
  pub proposal : Option Fields
  pub human : Option Fields
  pub checks : Checks

-- What came of the proposal.
pub record Acted : Type 0 where
  pub decision : Option Decision
  pub executed : Bool
  pub execution_event_id : Option String

module _ (H : Host) (R : Floats) (S : Setting R) where
  -- the payload of an EFFECT event, and whether the proposal counts as executed
  unfoldable pub effect_of : Outcome → Action Engine (Fields × Bool)
  effect_of (returned status effect) =
      pure (to_fields (("status", str status) ∷ ("effect", obj effect) ∷ []), true)
  effect_of other = raise (type_error "executor must return ExecutionResult")
  effect_of (raised error_type error_message) = pure (
    to_fields (
        ("status", str "ERROR")
        ∷ ("error_type", str error_type)
        ∷ ("error_message", str error_message)
        ∷ []),
    false,
  )

  -- the two events behind an attempt
  unfoldable pub record_attempt : String → String → Decision → Fields × Bool → Action Engine Acted
  record_attempt cycle_id decision_event_id decision done = do
    execution ←
        log H R S 4 cycle_id ":execution" "EXECUTION" (some decision_event_id)
          (to_fields (("attempted", bool true) ∷ ("executed", bool done.1) ∷ []))
    log H R S 5 cycle_id ":effect" "EFFECT" (some execution.event_id) done.0
    pure (record {
      decision = some decision;
      executed = done.1;
      execution_event_id = some execution.event_id;
    })

  unfoldable pub execute :
      String → String → Decision → Fields → Option (Fields → Outcome) → Action Engine Acted
  execute cycle_id decision_event_id decision proposal none =
      raise (runtime_error "PASS decision requires an explicit executor")
  execute cycle_id decision_event_id decision proposal (some run) = do
    done ← effect_of (run proposal)
    record_attempt cycle_id decision_event_id decision done

  safe_mode_reason : String
  safe_mode_reason = "physiology safe mode blocks external execution"

  unfoldable pub refuse : String → String → Fields → Action Engine Acted
  unfolding safe_mode_reason
  refuse cycle_id plan_event_id proposal = do
    log H R S 3 cycle_id ":decision" "DECISION" (some plan_event_id) (
        to_fields (
          ("decision", str (value hold))
          ∷ ("reason", str safe_mode_reason)
          ∷ (
            "receipt",
            obj (
                evidence_receipt H "PHYSIOLOGY_SAFE_MODE_DECISION"
                  (to_fields (("cycle_id", str cycle_id) ∷ ("proposal", obj proposal) ∷ []))
                  (to_fields
                    (("decision", str (value hold)) ∷ ("reason", str safe_mode_reason) ∷ []))),
          )
          ∷ []))
    pure (record { decision = some hold; executed = false; execution_event_id = none })

  -- by the decision on the proposal
  unfoldable pub carry_out : String → Fields → JournalEvent → Decision → Action Engine Acted
  carry_out cycle_id proposal event pass = execute cycle_id event.event_id pass proposal S.executor
  carry_out cycle_id proposal event d =
      pure (record { decision = some d; executed = false; execution_event_id = none })

  unfoldable pub log_decision : String → String → LoopResult → Action Engine JournalEvent
  log_decision cycle_id plan_event_id result =
      log H R S 3 cycle_id ":decision" "DECISION" (some plan_event_id) (
        to_fields (
          ("decision", str (value result.decision))
          ∷ ("reason", str result.reason)
          ∷ ("organism_receipt", obj result.evidence)
          ∷ []))

  -- the decision of the organism, written down and carried out
  unfoldable pub decide : String → String → Fields → LoopResult → Action Engine Acted
  decide cycle_id plan_event_id proposal result = do
    event ← log_decision cycle_id plan_event_id result
    carry_out cycle_id proposal event result.decision

  unfoldable pub question : Asked → String → Fields → Proposed
  question a cycle_id proposal = record {
    event_id = cycle_id <> ":organism-evaluation";
    proposal = proposal;
    human = a.human;
    checks = a.checks;
  }

  unfoldable pub submit : Asked → String → String → Fields → Action Engine Acted
  submit a cycle_id plan_event_id proposal = do
    result ← on_organism (evaluate H (question a cycle_id proposal))
    decide cycle_id plan_event_id proposal result

  unfoldable pub act : Asked → String → String → Option Fields → Action Engine Acted
  act a cycle_id plan_event_id none s =
      (ok (record { decision = none; executed = false; execution_event_id = none }), s)
  act a cycle_id plan_event_id (some proposal) s =
      if s.runtime.in_safe_mode
      then refuse cycle_id plan_event_id proposal s
      else submit a cycle_id plan_event_id proposal s
