-- ===== src/Physiology/Engine/Cycle.antt =====
-- One cycle of `PhysiologyEngine` in app/physiology.py: `tick`.
use gpt_project_bridge.Base.{
  ℕ, String, Bool, true, Option, none, some, [], ◌∷◌, Action, pure, gets, ◌>>=◌, ◌>>◌,
}
use gpt_project_bridge.Json.{Json, Fields, null, str, num, bool, obj, opt_str, to_fields, put}
use gpt_project_bridge.Host.{Host}
use gpt_project_bridge.Core.{Decision, value}
use gpt_project_bridge.Evidence.{evidence_receipt, receipt_hash}
use gpt_project_bridge.Organism.State.{state_root}
use gpt_project_bridge.Physiology.Journal.{JournalEvent}
use gpt_project_bridge.Physiology.Controller.{
  Floats, HealthState, health_value, RecoveryAction, action_value, RuntimeState,
}
use gpt_project_bridge.Physiology.Engine.{Engine, Setting, on_organism, persist_runtime_state}
use gpt_project_bridge.Physiology.Engine.Sense.{Planned, log, open_cycle, plan_step, observe}
use gpt_project_bridge.Physiology.Engine.Act.{Asked, Acted, act}

pub record CycleResult : Type 0 where
  pub cycle_id : String
  pub cycle_seq : ℕ
  pub health : HealthState
  pub recovery_action : RecoveryAction
  pub decision : Option Decision
  pub executed : Bool
  pub state_root : String
  pub receipt_hash : String

abbrev opt_decision : Option Decision → Json
opt_decision none = null
opt_decision (some d) = str (value d)

-- `execution_event_id or plan.event_id`
abbrev or_else : Option String → String → String
or_else none s = s
or_else (some t) s = t

module _ (H : Host) (R : Floats) (S : Setting R) where
  unfoldable pub cycle_core : String → Planned → Acted → RuntimeState → String → Fields
  cycle_core cycle_id p acted runtime root = to_fields (
      ("schema", str "matverse.physiology.v1")
      ∷ ("cycle_id", str cycle_id)
      ∷ ("cycle_seq", num runtime.cycle_seq)
      ∷ ("health", str (health_value p.health))
      ∷ ("recovery_action", str (action_value p.action))
      ∷ ("safe_mode", bool runtime.in_safe_mode)
      ∷ ("throttled", bool runtime.throttled)
      ∷ ("decision", opt_decision acted.decision)
      ∷ ("executed", bool acted.executed)
      ∷ ("execution_event_id", opt_str acted.execution_event_id)
      ∷ ("state_root", str root)
      ∷ [])

  unfoldable pub close_cycle : String → Planned → Acted → Action Engine CycleResult
  close_cycle cycle_id p acted = do
    root ← on_organism (state_root H)
    runtime ← gets (λ s. s.runtime)
    let core = cycle_core cycle_id p acted runtime root
    let closed = to_fields (("closed", bool true) ∷ [])
    log H R S 6 cycle_id ":memory" "MEMORY_COMMIT"
        (some (or_else acted.execution_event_id p.plan_event_id))
        (put "cycle_receipt" (obj (evidence_receipt H "PHYSIOLOGY_CYCLE" core closed)) core)
    persist_runtime_state
    after ← on_organism (state_root H)
    pure (record {
      cycle_id = cycle_id;
      cycle_seq = runtime.cycle_seq;
      health = p.health;
      recovery_action = p.action;
      decision = acted.decision;
      executed = acted.executed;
      state_root = after;
      receipt_hash = receipt_hash H "PHYSIOLOGY_CYCLE" core closed;
    })

  -- the rest of a cycle behind the plan, behind the opening, and the whole
  unfoldable pub finish : Asked → String → Planned → Action Engine CycleResult
  finish a cycle_id planned = do
    acted ← act H R S a cycle_id planned.plan_event_id a.proposal
    close_cycle cycle_id planned acted

  unfoldable pub proceed : Asked → String × JournalEvent → Action Engine CycleResult
  proceed a opened = do
    action ← plan_step H R S
    planned ← observe H R S opened.0 opened.1.event_id action
    finish a opened.0 planned

  unfoldable pub tick : Asked → Action Engine CycleResult
  tick a = do opened ← open_cycle H R S; proceed a opened
