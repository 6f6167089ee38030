-- ===== src/Feedback/Recorded.antt =====
-- `_record_effect_feedback` of app/physiology_effect_feedback.py, time after time.
use gpt_project_bridge.Base.{
  ℕ, ◌≤◌, String, ◌≡◌, refl, sym, subst, ◌∙◌, Bool, true, false, Option, some, List, [], ◌∷◌,
  Action, map, All,
}
use gpt_project_bridge.Base.Steps.{
  IsPreorder, Steps, Steps-pure, Steps-raise, Steps-lift, Steps-gets, Steps-bind,
}
use gpt_project_bridge.Json.{Fields}
use gpt_project_bridge.Host.{Host}
use gpt_project_bridge.Physiology.Controller.{Floats}
use gpt_project_bridge.Physiology.Engine.{Engine, Outcome}
use gpt_project_bridge.Physiology.Engine.Cycle.{CycleResult}
use gpt_project_bridge.Feedback.Loop.{ClosedLoop, effect_status_of, after_effect, noted}
use gpt_project_bridge.Feedback.Effect.{
  LoopSetting, on_engine, persist_state, effect_success, feedback_inputs, feedback_outputs,
  log_feedback, next_feedback, feedback_receipt, write_feedback, record_effect_feedback,
}
use gpt_project_bridge.Feedback.Streak.{IsAfter, failures, after_effect-IsAfter}

-- the state of the feedback is left as it is
record Keeps (s t : ClosedLoop) : Type 0 where
  pub feedback : t.feedback ≡ s.feedback

Keeps-order : IsPreorder Keeps
Keeps-order = record {
  refl_at = λ s. record { feedback = refl };
  trans_at = λ s t u f g. record { feedback = g.feedback ∙ f.feedback };
}

on_engine-Keeps : {A : Type 0} (m : Action Engine A) → Steps Keeps (on_engine m)
unfolding on_engine
on_engine-Keeps m = record { at = λ s. record { feedback = refl } }

ruleset keeping =
    (Steps-pure, Steps-raise, Steps-lift, Steps-gets, Steps-bind, Keeps-order, on_engine-Keeps)

-- one effect: its setting, its cycle, whether it was a recovery attempt, and what was captured
pub record Effect (R : Floats) : Type 0 where
  pub setting : LoopSetting R
  pub cycle : CycleResult
  pub attempt : Bool
  pub seen : Option Outcome

module _ (H : Host) (R : Floats) where
  persist_state-Keeps : (L : LoopSetting R) → Steps Keeps (persist_state H R L)
  unfolding persist_state
  persist_state-Keeps L = search keeping depth 10

  log_feedback-Keeps :
      (L : LoopSetting R) (cycle : CycleResult) (ins outs : Fields)
      → Steps Keeps (log_feedback H R L cycle ins outs)
  unfolding log_feedback
  log_feedback-Keeps L cycle ins outs = search keeping depth 10

  -- the plane after one effect, whether its recording returned or raised
  unfoldable pub record_one : Effect R → ClosedLoop → ClosedLoop
  unfolding record_effect_feedback
  record_one e s = (record_effect_feedback H R e.setting e.cycle e.attempt e.seen s).1

  unfoldable pub record_all : List (Effect R) → ClosedLoop → ClosedLoop
  unfolding record_one
  record_all [] s = s
  record_all (e ∷ es) s = record_all es (record_one e s)

  -- the cycle of an effect, and whether the effect counts as a success
  unfoldable pub judged_effect : Effect R → String × Bool
  unfolding effect_success effect_status_of
  judged_effect e = (e.cycle.cycle_id, effect_success H R e.setting (effect_status_of e.seen))

  write_feedback-Keeps :
      (L : LoopSetting R) (cycle : CycleResult) (seen : Option Outcome) (ins outs : Fields)
      → Steps Keeps (write_feedback H R L cycle seen ins outs)
  unfolding write_feedback
  write_feedback-Keeps L cycle seen ins outs =
      search (keeping, persist_state-Keeps, log_feedback-Keeps) depth 6

  -- but for the receipt, one effect leaves the state that `next_feedback` says
  record_one-feedback :
      (e : Effect R) (s : ClosedLoop)
      → (receipt : String) × ((record_one e s).feedback
          ≡ record (next_feedback H R e.setting e.cycle e.seen s.feedback) {
            last_feedback_receipt_hash = some receipt;
          })
  unfolding record_one record_effect_feedback
  record_one-feedback e s =
      let next = next_feedback H R e.setting e.cycle e.seen s.feedback in
      let ins = feedback_inputs H R e.setting e.cycle e.attempt e.seen in
      let outs =
        feedback_outputs H R e.setting (effect_success H R e.setting (effect_status_of e.seen))
          next in
      (
        feedback_receipt H R e.setting ins outs,
        ((write_feedback-Keeps e.setting e.cycle e.seen ins outs).at _).feedback,
      )

  record_one-IsAfter :
      (limit : ℕ)
      → 1 ≤ limit
      → (e : Effect R) → e.setting.feedback_policy.failures_before_recovery_gate ≡ limit
      → (ids : List String) (s : ClosedLoop) → IsAfter limit ids s.feedback
      → IsAfter limit (failures ids (judged_effect e ∷ [])) (record_one e s).feedback
  unfolding next_feedback judged_effect noted
  record_one-IsAfter limit at_least e same ids s h =
      let (cycle_id, success) = judged_effect e in
      let (receipt, is_next) = record_one-feedback e s in
      let after = after_effect-IsAfter limit at_least cycle_id success ids s.feedback h in
      let moved =
        subst
          (λ n.
            IsAfter limit (failures ids (judged_effect e ∷ []))
              (after_effect n cycle_id success s.feedback))
          (sym same) after in
      subst (λ f. IsAfter limit (failures ids (judged_effect e ∷ [])) f) (sym is_next)
        (record { streak = moved.streak; required = moved.required; cycle = moved.cycle })

  failures-cons :
      (ids : List String) (e : String × Bool) (es : List (String × Bool))
      → failures (failures ids (e ∷ [])) es ≡ failures ids (e ∷ es)
  unfolding failures
  failures-cons ids (c, true) es = refl
  failures-cons ids (c, false) es = refl

  -- However effects are recorded, by a policy with one positive number of failures, and whether each
  -- recording returns or raises: the streak counts the failures since the last success, recovery is
  -- required exactly from the failure on that reaches the policy's number, and it is required for the
  -- cycle of that failure.
  pub record_all-IsAfter :
      (limit : ℕ)
      → 1 ≤ limit
      → (es : List (Effect R))
      → All (λ e. e.setting.feedback_policy.failures_before_recovery_gate ≡ limit) es
      → (ids : List String) (s : ClosedLoop) → IsAfter limit ids s.feedback
      → IsAfter limit (failures ids (map judged_effect es)) (record_all es s).feedback
  unfolding record_all failures
  record_all-IsAfter limit at_least [] same ids s h = h
  record_all-IsAfter limit at_least (e ∷ es) same ids s h =
      subst (λ l. IsAfter limit l (record_all es (record_one e s)).feedback)
        (failures-cons ids (judged_effect e) (map judged_effect es))
        (record_all-IsAfter limit at_least es same.1 (failures ids (judged_effect e ∷ []))
          (record_one e s) (record_one-IsAfter limit at_least e same.0 ids s h))
