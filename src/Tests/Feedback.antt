-- ===== src/Tests/Feedback.antt =====
-- Effects and the recovery gate at a concrete engine.
use gpt_project_bridge.Physiology.Engine.{
  on_journal, on_organism, runtime_json, persist_runtime_state, entry, sample_json,
}
use gpt_project_bridge.Physiology.Engine.Sense.{log, open_cycle, assessment, plan_step, observe}
use gpt_project_bridge.Physiology.Engine.Act.{
  effect_of, record_attempt, execute, carry_out, log_decision, decide, question, submit, act,
}
use gpt_project_bridge.Physiology.Engine.Cycle.{cycle_core, close_cycle, finish, proceed, tick}
use gpt_project_bridge.Physiology.Journal.{
  validate_label, event_core, new_event, find_event, insert_event, append, upsert, set_state,
  conflicts,
}
use gpt_project_bridge.Physiology.Controller.{
  normal, nothing, health_value, action_value, disk_free_ratio, rss_above, verdict, assess,
  plan_normal, plan_recovery,
}
use gpt_project_bridge.Organism.State.{
  sorted_constraints, state_root, cached, mark_state_mutated, state_payload, item_json,
}
use gpt_project_bridge.Organism.Loop.{is_evaluation}
use gpt_project_bridge.Organism.Evaluate.{
  first_match, conclude, record_evaluation, event_evidence, ruling, event_receipt, evaluate,
}
use gpt_project_bridge.Evidence.{evidence_receipt, evidence_core, merkle_pair, receipt_hash}
use gpt_project_bridge.Core.{hold, omega_gate, evaluate_hdb, value}
use gpt_project_bridge.Host.{stable_hash}
use gpt_project_bridge.Json.{put}
use gpt_project_bridge.Json.Dump.{canonical_json}
use gpt_project_bridge.Base.Text.{has_text, strip, decimal, take_text}
use gpt_project_bridge.Feedback.Tick.{
  held_cycle, held_result, record_gate_hold, gated_tick, open_tick, inner, open_result,
  effect_found, closed_loop_root,
}
use gpt_project_bridge.Feedback.Effect.{
  record_effect_feedback, next_feedback, feedback_inputs, feedback_outputs, effect_success,
  post_health, post_assessment, write_feedback, persist_state, log_feedback, feedback_receipt,
  on_engine,
}
use gpt_project_bridge.Feedback.State.{accepts, state_mac}
use gpt_project_bridge.Feedback.Loop.{
  copied, recovery_gate, gate_reason, is_recovery, execute_and_capture, noted, after_effect,
  effect_status_of,
}
use gpt_project_bridge.Base.{
  String, ◌≡◌, refl, true, false, none, some, List, [], ◌∷◌, Result, ok, map, arith,
}
use gpt_project_bridge.Json.{Json, Fields, str, num, obj, get, is_text, to_fields}
use gpt_project_bridge.Host.{Host}
use gpt_project_bridge.Auth.{Integer, pos}
use gpt_project_bridge.Physiology.Controller.{health_value}
use gpt_project_bridge.Physiology.Engine.{returned}
use gpt_project_bridge.Physiology.Engine.Act.{Asked}
use gpt_project_bridge.Feedback.State.{
  EffectFeedbackPolicy, FeedbackState, empty_feedback, feedback_fields, sealed,
}
use gpt_project_bridge.Feedback.Loop.{ClosedLoop, ClosedLoopCycleResult, opt_copied}
use gpt_project_bridge.Feedback.Effect.{LoopSetting, read_both, sample_raises}
use gpt_project_bridge.Feedback.Tick.{closed_tick}
use gpt_project_bridge.Feedback.Streak.{IsAfter, failures}
use gpt_project_bridge.Feedback.Recorded.{Effect, record_all, judged_effect, record_all-IsAfter}
use gpt_project_bridge.Feedback.Gated.{closed_tick-held}
use gpt_project_bridge.Tests.Physiology.{
  counting, digest_of, hundredths, sample, setting, engine, asked, out,
}

abbrev pub repair : Fields
repair = to_fields (("action", str "READ") ∷ ("recovery_for", str "c-8") ∷ [])

-- a host that reads every text as this proposal
abbrev repairing : Host
repairing = record counting { sha256 = λ s. digest_of s; json_loads = λ s. some (obj repair) }

abbrev once : EffectFeedbackPolicy
once = record { success_statuses = "DONE" ∷ []; failures_before_recovery_gate = 1 }

abbrev seal : String → String
seal message = "seal"

abbrev loop_setting : LoopSetting hundredths
loop_setting = record {
  setting = setting;
  feedback_policy = once;
  upper = λ s. s;
  mac = seal;
  reading = read_both sample true;
}

abbrev waiting : FeedbackState
waiting = record empty_feedback {
  failure_streak = 1;
  recovery_required = true;
  recovery_for_cycle_id = some "c-9";
}

abbrev broken_loop : ClosedLoop
broken_loop = record { engine = engine; feedback = waiting }

abbrev asked_repair : Asked
asked_repair = record asked { proposal = some repair }

abbrev held : ClosedLoopCycleResult
held = record {
  cycle = record {
    cycle_id = "212564";
    cycle_seq = 1;
    health = normal;
    recovery_action = nothing;
    decision = none;
    executed = false;
    state_root = "239230";
    receipt_hash = "755029";
  };
  effective_decision = some hold;
  post_effect_health = none;
  effect_status = none;
  recovery_required = true;
  recovery_for_cycle_id = some "c-9";
  feedback_receipt_hash = some "977310";
  closed_loop_state_root = "496476";
}

held_tick : (closed_tick repairing hundredths loop_setting asked_repair broken_loop).0 ≡ ok held
unfolding on_journal on_organism runtime_json persist_runtime_state entry sample_json log open_cycle
    assessment plan_step observe effect_of record_attempt execute carry_out log_decision decide
    question submit act cycle_core close_cycle finish proceed tick validate_label event_core
    new_event find_event insert_event append upsert set_state health_value action_value
    disk_free_ratio rss_above verdict assess plan_normal plan_recovery sorted_constraints state_root
    cached mark_state_mutated state_payload is_evaluation first_match conclude record_evaluation
    event_evidence ruling event_receipt evaluate evidence_receipt evidence_core merkle_pair
    receipt_hash omega_gate evaluate_hdb value stable_hash put canonical_json has_text strip
    take_text decimal digest_of conflicts gpt_project_bridge.Organism.Evaluate.event_core item_json
    closed_tick gated_tick open_tick inner open_result effect_found record_effect_feedback
    next_feedback feedback_inputs feedback_outputs effect_success accepts post_health
    post_assessment write_feedback persist_state log_feedback copied opt_copied recovery_gate
    gate_reason held_cycle held_result record_gate_hold is_recovery execute_and_capture
    closed_loop_root feedback_receipt on_engine feedback_fields sealed state_mac noted after_effect
    effect_status_of get
held_tick = refl

not_named : is_text "c-9" (get "recovery_for" repair) ≡ false
unfolding get
not_named = refl

copy_read : opt_copied repairing asked_repair.proposal ≡ ok (some repair)
unfolding opt_copied copied
copy_read = refl

closed_tick-held_example :
    let t = (closed_tick repairing hundredths loop_setting asked_repair broken_loop).1 in
    (held.cycle.executed ≡ false) × (held.effective_decision ≡ some hold) × (t.feedback ≡ waiting)
closed_tick-held_example =
    closed_tick-held repairing hundredths loop_setting asked_repair broken_loop
      (closed_tick repairing hundredths loop_setting asked_repair broken_loop).1 {r = held} repair
      "c-9" copy_read refl not_named
      (λ i.
        (held_tick i, (closed_tick repairing hundredths loop_setting asked_repair broken_loop).1))

-- `str` and `int` where they are simple
py_text : Json → String
py_text (str s) = s
py_text v = "value"

abbrev reading_host : Host
reading_host = record counting {
  py_str = py_text;
  json_loads = λ s. some (obj (feedback_fields waiting));
}

py_int : Json → Result Integer
py_int (num n) = ok (pos n)
py_int v = ok (pos 0)

-- an effect that failed, since nothing could be measured, and one that succeeded
abbrev failed_effect : Effect hundredths
failed_effect = record {
  setting = record loop_setting { reading = sample_raises "OSError" "no disk" };
  cycle = record out { cycle_id = "c-1" };
  attempt = false;
  seen = some (returned "DONE" repair);
}

abbrev good_effect : Effect hundredths
good_effect = record {
  setting = loop_setting;
  cycle = record out { cycle_id = "c-2" };
  attempt = true;
  seen = some (returned "DONE" repair);
}

abbrev effects : List (Effect hundredths)
effects = failed_effect ∷ failed_effect ∷ good_effect ∷ failed_effect ∷ []

abbrev fresh_loop : ClosedLoop
fresh_loop = record { engine = engine; feedback = empty_feedback }

fresh-IsAfter : IsAfter 1 [] empty_feedback
fresh-IsAfter = record { streak = refl; required = refl; cycle = refl }

record_all-IsAfter_example :
    IsAfter 1
      (failures [] (map (judged_effect repairing hundredths) effects))
      (record_all repairing hundredths effects fresh_loop).feedback
record_all-IsAfter_example =
    record_all-IsAfter repairing hundredths 1 (omega arith) effects
      (refl, (refl, (refl, (refl, tt)))) [] fresh_loop fresh-IsAfter
