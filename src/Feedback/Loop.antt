-- ===== src/Feedback/Loop.antt =====
-- A cycle of `ClosedLoopPhysiologyEngine` in app/physiology_effect_feedback.py around a cycle of the
-- physiology. What is measured behind an effect is an input, and what the executor did is found by
-- asking it again, since it is a function here.
use gpt_project_bridge.Base.{
  ℕ, ◌+◌, String, ◌<>◌, Bool, true, false, Option, none, some, [], ◌∷◌, Result, ok, err,
  other_error, leb, if◌then◌else◌,
}
use gpt_project_bridge.Json.{Json, Fields, null, str, obj, get, dict, is_text}
use gpt_project_bridge.Json.Dump.{canonical_json}
use gpt_project_bridge.Host.{Host}
use gpt_project_bridge.Core.{Decision}
use gpt_project_bridge.Physiology.Controller.{HealthState, normal}
use gpt_project_bridge.Physiology.Engine.{Engine, Outcome, returned, other, raised}
use gpt_project_bridge.Physiology.Engine.Cycle.{CycleResult}
use gpt_project_bridge.Feedback.State.{FeedbackState}

pub record ClosedLoop : Type 0 where
  pub engine : Engine
  pub feedback : FeedbackState

pub record ClosedLoopCycleResult : Type 0 where
  pub cycle : CycleResult
  pub effective_decision : Option Decision
  pub post_effect_health : Option HealthState
  pub effect_status : Option String
  pub recovery_required : Bool
  pub recovery_for_cycle_id : Option String
  pub feedback_receipt_hash : Option String
  pub closed_loop_state_root : String

-- `json.loads(canonical_json(fs))`, which is a dict
unfoldable pub to_dict : Option Json → Result Fields
to_dict (some (obj fs)) = ok fs
to_dict _ = err (other_error "no dict")

unfoldable pub copied : Host → Fields → Result Fields
unfolding to_dict canonical_json
copied H fs = to_dict (H.json_loads (canonical_json (obj fs)))

unfoldable pub opt_copied : Host → Option Fields → Result (Option Fields)
unfolding copied
opt_copied H none = ok none
opt_copied H (some fs) = elim (copied H fs) [ ok gs ↦ ok (some gs) | err e ↦ err e ]

-- `_execute_and_capture`: what the engine's executor sees of the one that was given
unfoldable pub execute_and_capture : Outcome → Outcome
execute_and_capture (returned status effect) = returned status effect
execute_and_capture other = raised "TypeError" "executor must return ExecutionResult"
execute_and_capture (raised error_type message) = raised error_type message

abbrev pub opt_map {ℓ κ} : {A : Type ℓ} {B : Type κ} → (A → B) → Option A → Option B
opt_map f none = none
opt_map f (some a) = some (f a)

-- what was captured of an execution
abbrev pub captured : Option (Fields → Outcome) → Option Fields → Option Outcome
captured (some run) (some proposal) = some (run proposal)
captured _ _ = none

unfoldable pub effect_status_of : Option Outcome → String
effect_status_of (some (returned status effect)) = status
effect_status_of (some other) = "UNKNOWN"
effect_status_of (some (raised error_type message)) = "ERROR"
effect_status_of none = "UNKNOWN"

unfoldable pub error_json : Option (String × String) → Json
error_json none = null
error_json (some (error_type, message)) =
    dict (("error_type", str error_type) ∷ ("error_message", str message) ∷ [])

unfoldable pub error_of : Option Outcome → Option (String × String)
error_of (some (raised error_type message)) = some (error_type, message)
error_of _ = none

abbrev pub is_normal : Option HealthState → Bool
is_normal (some normal) = true
is_normal _ = false

-- the gate of `_recovery_gate`, and its reason
unfoldable pub recovery_gate : FeedbackState → Option Fields → Bool
unfolding get
recovery_gate s none = true
recovery_gate s (some proposal) = elim s.recovery_for_cycle_id [
  | none ↦ true
  | some recovery_for ↦ is_text recovery_for (get "recovery_for" proposal)
]

unfoldable pub gate_reason : FeedbackState → String
gate_reason s = elim s.recovery_for_cycle_id [
  | none ↦ ""
  | some recovery_for ↦ "effect recovery required for cycle " <> recovery_for
]

-- `was_recovery_attempt`
unfoldable pub is_recovery : FeedbackState → Option Fields → Bool
unfolding get
is_recovery s none = false
is_recovery s (some proposal) = elim s.recovery_for_cycle_id [
  | none ↦ false
  | some recovery_for ↦ is_text recovery_for (get "recovery_for" proposal)
]

-- What an effect that succeeded or failed does to the streak and to the gate.
unfoldable pub failed_once : ℕ → String → FeedbackState → FeedbackState
failed_once limit cycle_id s =
    if leb limit (s.failure_streak + 1)
    then record s {
      failure_streak = s.failure_streak + 1;
      recovery_required = true;
      recovery_for_cycle_id = elim s.recovery_for_cycle_id [
        | none ↦ some cycle_id
        | some c ↦ some c
      ];
    }
    else record s { failure_streak = s.failure_streak + 1 }

unfoldable pub after_effect : ℕ → String → Bool → FeedbackState → FeedbackState
unfolding failed_once
after_effect limit cycle_id true s = record s {
  failure_streak = 0;
  recovery_required = false;
  recovery_for_cycle_id = none;
}
after_effect limit cycle_id false s = failed_once limit cycle_id s

-- the last effect
unfoldable pub noted : String → Option HealthState → FeedbackState → FeedbackState
noted status health s = record s {
  last_effect_status = some status;
  last_post_effect_health = health;
}
