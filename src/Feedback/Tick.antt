-- ===== src/Feedback/Tick.antt =====
-- `tick` of `ClosedLoopPhysiologyEngine` in app/physiology_effect_feedback.py.
use gpt_project_bridge.Base.{
  String, ◌<>◌, Bool, true, false, Option, none, some, List, [], ◌∷◌, ◌++◌, Action, pure, lift,
  gets, ◌>>=◌, ◌>>◌, if◌then◌else◌,
}
use gpt_project_bridge.Json.{Json, Fields, str, obj, opt_str, dict, to_fields}
use gpt_project_bridge.Host.{Host, stable_hash}
use gpt_project_bridge.Core.{Decision, pass, hold, value}
use gpt_project_bridge.Evidence.{evidence_receipt, receipt_hash}
use gpt_project_bridge.Physiology.Controller.{Floats, HealthState}
use gpt_project_bridge.Physiology.Engine.{Setting}
use gpt_project_bridge.Physiology.Engine.Sense.{log}
use gpt_project_bridge.Physiology.Engine.Act.{Asked}
use gpt_project_bridge.Physiology.Engine.Cycle.{CycleResult, tick}
use gpt_project_bridge.Feedback.State.{feedback_schema, FeedbackState, feedback_fields}
use gpt_project_bridge.Feedback.Loop.{
  ClosedLoop, ClosedLoopCycleResult, opt_copied, execute_and_capture, opt_map, captured,
  recovery_gate, gate_reason, is_recovery,
}
use gpt_project_bridge.Feedback.Effect.{LoopSetting, on_engine, record_effect_feedback}

abbrev pub has_passed : Option Decision → Bool
has_passed (some pass) = true
has_passed _ = false

module _ (H : Host) (R : Floats) (L : LoopSetting R) where
  -- the setting of the inner engine
  unfoldable pub inner : Setting R
  unfolding execute_and_capture
  inner = record L.setting {
    executor = opt_map (λ run proposal. execute_and_capture (run proposal)) L.setting.executor;
  }

  -- `_closed_loop_root`
  unfoldable pub closed_loop_root : CycleResult → FeedbackState → String
  unfolding stable_hash feedback_fields
  closed_loop_root cycle s = stable_hash H (
      dict (
        ("schema", str feedback_schema)
        ∷ ("organism_state_root", str cycle.state_root)
        ∷ ("feedback_state", obj (feedback_fields s))
        ∷ []))

  hold_inputs : CycleResult → FeedbackState → Fields
  hold_inputs cycle s = to_fields (
      ("schema", str feedback_schema)
      ∷ ("cycle_id", str cycle.cycle_id)
      ∷ ("recovery_for_cycle_id", opt_str s.recovery_for_cycle_id)
      ∷ [])

  hold_outputs : String → List (String × Json)
  hold_outputs reason = ("decision", str (value hold)) ∷ ("reason", str reason) ∷ []

  -- `_record_gate_hold`
  unfoldable pub record_gate_hold : CycleResult → String → Action ClosedLoop String
  unfolding hold_inputs hold_outputs on_engine log evidence_receipt receipt_hash
  record_gate_hold cycle reason = do
    feedback ← gets (λ s. s.feedback)
    let inputs = hold_inputs cycle feedback
    let outputs = to_fields (hold_outputs reason)
    on_engine (
        log H R L.setting 7 cycle.cycle_id ":effect-recovery-gate" "EFFECT_RECOVERY_GATE"
          (some (cycle.cycle_id <> ":memory"))
          (to_fields (
            hold_outputs reason
            ++ (
              "receipt",
              obj (evidence_receipt H "PHYSIOLOGY_EFFECT_RECOVERY_GATE" inputs outputs),
            )
              ∷ [])))
    pure (receipt_hash H "PHYSIOLOGY_EFFECT_RECOVERY_GATE" inputs outputs)

  -- a cycle without its proposal, where the gate is closed for it
  unfoldable pub held_result : CycleResult → Action ClosedLoop ClosedLoopCycleResult
  unfolding record_gate_hold gate_reason closed_loop_root
  held_result cycle = do
    feedback ← gets (λ s. s.feedback)
    receipt ← record_gate_hold cycle (gate_reason feedback)
    pure (record {
      cycle = cycle;
      effective_decision = some hold;
      post_effect_health = none;
      effect_status = none;
      recovery_required = true;
      recovery_for_cycle_id = feedback.recovery_for_cycle_id;
      feedback_receipt_hash = some receipt;
      closed_loop_state_root = closed_loop_root cycle feedback;
    })

  unfoldable pub held_cycle : Asked → Action ClosedLoop ClosedLoopCycleResult
  unfolding on_engine tick inner held_result
  held_cycle a = on_engine (tick H R inner (record a { proposal = none })) >>= held_result

  -- what was found behind the effect, if there was one
  unfoldable pub effect_found :
      Asked
      → Bool
      → CycleResult
      → Action ClosedLoop (Option HealthState × Option String × Option String)
  unfolding record_effect_feedback execute_and_capture
  effect_found a attempt cycle =
      if has_passed cycle.decision
      then (do
        found ←
            record_effect_feedback H R L cycle attempt
              (opt_map execute_and_capture (captured L.setting.executor a.proposal))
        pure (found.0, some found.1, some found.2))
      else pure (none, none, none)

  unfoldable pub open_result : Asked → Bool → CycleResult → Action ClosedLoop ClosedLoopCycleResult
  unfolding effect_found closed_loop_root
  open_result a attempt cycle = do
    found ← effect_found a attempt cycle
    feedback ← gets (λ s. s.feedback)
    pure (record {
      cycle = cycle;
      effective_decision = cycle.decision;
      post_effect_health = found.0;
      effect_status = found.1;
      recovery_required = feedback.recovery_required;
      recovery_for_cycle_id = feedback.recovery_for_cycle_id;
      feedback_receipt_hash = found.2;
      closed_loop_state_root = closed_loop_root cycle feedback;
    })

  unfoldable pub open_tick : Asked → Action ClosedLoop ClosedLoopCycleResult
  unfolding is_recovery on_engine tick inner open_result
  open_tick a s =
      (on_engine (tick H R inner a) >>= open_result a (is_recovery s.feedback a.proposal)) s

  -- by the gate, for the copy of the proposal
  unfoldable pub gated_tick : Asked → Option Fields → Action ClosedLoop ClosedLoopCycleResult
  unfolding recovery_gate held_cycle open_tick
  gated_tick a proposal s =
      if recovery_gate s.feedback proposal
      then open_tick (record a { proposal = proposal }) s
      else held_cycle (record a { proposal = proposal }) s

  -- `tick`
  unfoldable pub closed_tick : Asked → Action ClosedLoop ClosedLoopCycleResult
  unfolding opt_copied gated_tick
  closed_tick a = lift (opt_copied H a.proposal) >>= gated_tick a
