-- ===== src/Physiology/Engine/Sense.antt =====
-- The first part of a cycle in app/physiology.py: the tick, the assessment, the recovery plan.
use gpt_project_bridge.Base.{
  ℕ, ◌+◌, String, Option, none, some, [], ◌∷◌, map, ok, Action, pure, gets, modify, ◌>>=◌, ◌>>◌,
}
use gpt_project_bridge.Json.{Fields, str, num, bool, dict, list, to_fields}
use gpt_project_bridge.Host.{Host, stable_hash}
use gpt_project_bridge.Organism.State.{state_root}
use gpt_project_bridge.Physiology.Journal.{JournalEvent, append}
use gpt_project_bridge.Physiology.Controller.{
  Floats, HealthState, health_value, RecoveryAction, action_value, HealthAssessment, assess,
  plan_recovery,
}
use gpt_project_bridge.Physiology.Engine.{
  Engine, Setting, on_journal, on_organism, persist_runtime_state, entry, sample_json,
}

-- What the first part of a cycle has found.
pub record Planned : Type 0 where
  pub health : HealthState
  pub action : RecoveryAction
  pub plan_event_id : String

module _ (H : Host) (R : Floats) (S : Setting R) where
  -- the journal's `append` at the n-th time of the cycle
  unfoldable pub log :
      ℕ
      → (cycle_id suffix event_type : String) → Option String
      → Fields
      → Action Engine JournalEvent
  log n cycle_id suffix event_type causation_id payload =
      on_journal (append H (S.clock n) (entry cycle_id suffix event_type causation_id payload))

  unfoldable pub open_cycle : Action Engine (String × JournalEvent)
  open_cycle = do
    modify (λ s. record s { runtime = record s.runtime { cycle_seq = s.runtime.cycle_seq + 1 } })
    cycle_seq ← gets (λ s. s.runtime.cycle_seq)
    organism_id ← gets (λ s. s.organism.organism_id)
    previous ← on_organism (state_root H)
    let cycle_id = stable_hash H (
        dict (
          ("schema", str "matverse.physiology.v1")
          ∷ ("organism_id", str organism_id)
          ∷ ("cycle_seq", num cycle_seq)
          ∷ ("previous_state_root", str previous)
          ∷ []))
    event ←
        log 0 cycle_id ":tick" "TICK" none
          (to_fields (("cycle_id", str cycle_id) ∷ ("cycle_seq", num cycle_seq) ∷ []))
    pure (cycle_id, event)

  -- the assessment of this cycle
  unfoldable pub assessment : HealthAssessment
  assessment = assess R S.policy S.sample S.journal_ok

  -- `self._plan_recovery(assessment)`
  unfoldable pub plan_step : Action Engine RecoveryAction
  plan_step s =
      let (action, runtime) =
        plan_recovery S.policy.normal_streak_to_exit_safe_mode assessment.state s.runtime in
      (ok action, record s { runtime = runtime })

  unfoldable pub observe : String → String → RecoveryAction → Action Engine Planned
  observe cycle_id tick_event_id action = do
    persist_runtime_state
    observation ← log 1 cycle_id ":observation" "OBSERVATION" (some tick_event_id) (
        to_fields (
          ("cycle_id", str cycle_id)
          ∷ ("telemetry", sample_json R S.sample)
          ∷ ("journal_integrity", bool S.journal_ok)
          ∷ ("health", str (health_value assessment.state))
          ∷ ("reasons", list (map str assessment.reasons))
          ∷ []))
    runtime ← gets (λ s. s.runtime)
    plan ← log 2 cycle_id ":plan" "RECOVERY_PLAN" (some observation.event_id) (
        to_fields (
          ("cycle_id", str cycle_id)
          ∷ ("action", str (action_value action))
          ∷ ("safe_mode", bool runtime.in_safe_mode)
          ∷ ("throttled", bool runtime.throttled)
          ∷ []))
    pure (record { health = assessment.state; action = action; plan_event_id = plan.event_id })
