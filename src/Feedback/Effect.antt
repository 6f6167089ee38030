-- ===== src/Feedback/Effect.antt =====
-- What a cycle of app/physiology_effect_feedback.py does behind an effect: `_record_effect_feedback`.
use gpt_project_bridge.Base.{
  String, ◌<>◌, Bool, ◌&&◌, Option, none, some, List, [], ◌∷◌, map, Action, pure, lift, gets, ◌>>=◌,
  ◌>>◌, is_none,
}
use gpt_project_bridge.Json.{Json, Fields, null, bool, num, str, obj, opt_str, list, to_fields}
use gpt_project_bridge.Host.{Host}
use gpt_project_bridge.Evidence.{evidence_receipt, receipt_hash}
use gpt_project_bridge.Physiology.Journal.{set_state}
use gpt_project_bridge.Physiology.Controller.{
  Floats, TelemetrySample, HealthState, HealthAssessment, assess,
}
use gpt_project_bridge.Physiology.Engine.{Engine, Outcome, Setting, on_journal, sample_json}
use gpt_project_bridge.Physiology.Engine.Sense.{log}
use gpt_project_bridge.Physiology.Engine.Cycle.{CycleResult}
use gpt_project_bridge.Feedback.State.{
  feedback_schema, EffectFeedbackPolicy, accepts, FeedbackState, health_json, feedback_fields,
  sealed,
}
use gpt_project_bridge.Feedback.Loop.{
  ClosedLoop, copied, opt_map, effect_status_of, error_json, error_of, is_normal, after_effect,
  noted,
}

-- What `_record_effect_feedback` reads behind an effect: a sample and the check of the journal, or the
-- failure of one of them, by its type and message.
pub data Reading {ℓ} (T : Type ℓ) : Type ℓ where
  read_both : T → (journal_ok : Bool) → Reading T
  sample_raises : (error_type message : String) → Reading T
  check_raises : T → (error_type message : String) → Reading T

module _ (R : Floats) where
  post_sample : Reading (TelemetrySample R) → Option (TelemetrySample R)
  post_sample (read_both s journal_ok) = some s
  post_sample (sample_raises t m) = none
  post_sample (check_raises s t m) = some s

  unfoldable pub post_assessment : Setting R → Reading (TelemetrySample R) → Option HealthAssessment
  unfolding assess
  post_assessment S (read_both s journal_ok) = some (assess R S.policy s journal_ok)
  post_assessment S (sample_raises t m) = none
  post_assessment S (check_raises s t m) = none

  measurement_error : Reading (TelemetrySample R) → Option (String × String)
  measurement_error (read_both s journal_ok) = none
  measurement_error (sample_raises t m) = some (t, m)
  measurement_error (check_raises s t m) = some (t, m)

  reasons_of : Option HealthAssessment → List Json
  reasons_of none = []
  reasons_of (some a) = map str a.reasons

  sample_or_null : Option (TelemetrySample R) → Json
  unfolding sample_json
  sample_or_null none = null
  sample_or_null (some s) = sample_json R s

-- What is given to the engine at its construction, and the reading behind the effect of a cycle.
pub record LoopSetting (R : Floats) : Type 0 where
  pub setting : Setting R
  pub feedback_policy : EffectFeedbackPolicy
  pub upper : String → String
  pub mac : String → String
  pub reading : Reading (TelemetrySample R)

unfoldable pub on_engine : {A : Type 0} → Action Engine A → Action ClosedLoop A
on_engine m s = let (r, e) = m s.engine in (r, record s { engine = e })

module _ (H : Host) (R : Floats) (L : LoopSetting R) where
  -- `_persist_state`
  unfoldable pub persist_state : Action ClosedLoop (Unit {0})
  unfolding copied feedback_fields on_engine on_journal set_state sealed
  persist_state = do
    feedback ← gets (λ s. s.feedback)
    payload ← lift (copied H (feedback_fields feedback))
    organism_id ← gets (λ s. s.engine.organism.organism_id)
    on_engine (
        on_journal
          (set_state ("physiology-effect-feedback:" <> organism_id) (sealed L.mac payload)))

  unfoldable pub post_health : Option HealthState
  unfolding post_assessment
  post_health = opt_map (λ (a : HealthAssessment). a.state) (post_assessment R L.setting L.reading)

  unfoldable pub effect_success : String → Bool
  unfolding accepts measurement_error post_health
  effect_success status =
      accepts L.upper L.feedback_policy status
      && (is_normal post_health && is_none (measurement_error R L.reading))

  unfoldable pub feedback_inputs : CycleResult → Bool → Option Outcome → Fields
  unfolding post_sample sample_or_null health_json post_health post_assessment reasons_of error_json
      error_of measurement_error effect_status_of
  feedback_inputs cycle was_recovery_attempt seen = to_fields (
      ("schema", str feedback_schema)
      ∷ ("cycle_id", str cycle.cycle_id)
      ∷ ("cycle_receipt_hash", str cycle.receipt_hash)
      ∷ ("was_recovery_attempt", bool was_recovery_attempt)
      ∷ ("effect_status", str (effect_status_of seen))
      ∷ ("executor_error", error_json (error_of seen))
      ∷ ("measurement_error", error_json (measurement_error R L.reading))
      ∷ ("post_effect_telemetry", sample_or_null R (post_sample R L.reading))
      ∷ ("post_effect_health", health_json post_health)
      ∷ ("post_effect_reasons", list (reasons_of R (post_assessment R L.setting L.reading)))
      ∷ [])

  unfoldable pub feedback_outputs : Bool → FeedbackState → Fields
  feedback_outputs success s = to_fields (
      ("effect_success", bool success)
      ∷ ("failure_streak", num s.failure_streak)
      ∷ ("recovery_required", bool s.recovery_required)
      ∷ ("recovery_for_cycle_id", opt_str s.recovery_for_cycle_id)
      ∷ [])

  -- the event of `_record_effect_feedback`
  unfoldable pub log_feedback :
      CycleResult → (inputs outputs : Fields) → Action ClosedLoop (Unit {0})
  unfolding copied on_engine log evidence_receipt
  log_feedback cycle inputs outputs = do
    ins ← lift (copied H inputs)
    outs ← lift (copied H outputs)
    on_engine (
        log H R L.setting 7 cycle.cycle_id ":effect-feedback" "EFFECT_FEEDBACK"
          (some (cycle.cycle_id <> ":effect"))
          (to_fields (
            ("inputs", obj ins)
            ∷ ("outputs", obj outs)
            ∷ ("receipt", obj (evidence_receipt H "PHYSIOLOGY_EFFECT_FEEDBACK" inputs outputs))
            ∷ [])))
    pure tt

  -- the state behind an effect, but for its receipt
  unfoldable pub next_feedback : CycleResult → Option Outcome → FeedbackState → FeedbackState
  unfolding after_effect noted effect_success effect_status_of post_health
  next_feedback cycle seen s = noted (effect_status_of seen) post_health (
      after_effect L.feedback_policy.failures_before_recovery_gate cycle.cycle_id
        (effect_success (effect_status_of seen)) s)

  unfoldable pub feedback_receipt : (inputs outputs : Fields) → String
  unfolding receipt_hash
  feedback_receipt inputs outputs = receipt_hash H "PHYSIOLOGY_EFFECT_FEEDBACK" inputs outputs

  -- the receipt goes into the state, the state is saved and the event written
  unfoldable pub write_feedback :
      CycleResult
      → Option Outcome
      → (inputs outputs : Fields) → Action ClosedLoop (Option HealthState × String × String)
  unfolding effect_status_of persist_state log_feedback post_health feedback_receipt
  write_feedback cycle seen inputs outputs = do
    persist_state
    log_feedback cycle inputs outputs
    pure (post_health, effect_status_of seen, feedback_receipt inputs outputs)

  unfoldable pub record_effect_feedback :
      CycleResult → Bool → Option Outcome → Action ClosedLoop (Option HealthState × String × String)
  unfolding next_feedback feedback_inputs feedback_outputs effect_success effect_status_of
      write_feedback feedback_receipt
  record_effect_feedback cycle was_recovery_attempt seen s =
      let feedback = next_feedback cycle seen s.feedback in
      let inputs = feedback_inputs cycle was_recovery_attempt seen in
      let outputs = feedback_outputs (effect_success (effect_status_of seen)) feedback in
      write_feedback cycle seen inputs outputs (record s {
        feedback = record feedback {
          last_feedback_receipt_hash = some (feedback_receipt inputs outputs);
        };
      })
