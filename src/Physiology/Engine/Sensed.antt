-- ===== src/Physiology/Engine/Sensed.antt =====
-- What the first part of a cycle in app/physiology.py leaves of the organism.
use gpt_project_bridge.Base.{
  ℕ, ◌+◌, String, ◌≡◌, refl, ◌∙◌, inl, inr, Option, Action, modify, Option-cases,
}
use gpt_project_bridge.Base.Steps.{
  IsPreorder, Steps, Steps-pure, Steps-raise, Steps-gets, Steps-bind,
}
use gpt_project_bridge.Json.{Fields}
use gpt_project_bridge.Host.{Host}
use gpt_project_bridge.Organism.State.{Organism, cached, root_found, state_root}
use gpt_project_bridge.Physiology.Controller.{Floats, RecoveryAction}
use gpt_project_bridge.Physiology.Engine.{
  Engine, Setting, on_journal, on_organism, persist_runtime_state,
}
use gpt_project_bridge.Physiology.Engine.Sense.{log, open_cycle, plan_step, observe}

-- The organism keeps its constraints and its lineage.
pub record SameRules (s t : Engine) : Type 0 where
  pub constraints : t.organism.constraints ≡ s.organism.constraints
  pub lineage : t.organism.lineage ≡ s.organism.lineage

pub SameRules-order : IsPreorder SameRules
SameRules-order = record {
  refl_at = λ s. record { constraints = refl; lineage = refl };
  trans_at = λ s t u g h. record {
    constraints = h.constraints ∙ g.constraints;
    lineage = h.lineage ∙ g.lineage;
  };
}

on_journal-SameRules : {A : Type 0} (m : Action _ A) → Steps SameRules (on_journal m)
unfolding on_journal
on_journal-SameRules m = record { at = λ s. record { constraints = refl; lineage = refl } }

persist-SameRules : Steps SameRules persist_runtime_state
unfolding persist_runtime_state on_journal
persist-SameRules = record { at = λ s. record { constraints = refl; lineage = refl } }

module _ (H : Host) where
  root-constraints : (o : Organism) → (state_root H o).1.constraints ≡ o.constraints
  unfolding state_root root_found
  root-constraints o =
      elim (Option-cases
        (cached o.cached_state_root o.cached_state_generation o.state_generation)) [
          | inl e ↦ rw e refl
          | inr (root, e) ↦ rw e refl
        ]

  root-lineage : (o : Organism) → (state_root H o).1.lineage ≡ o.lineage
  unfolding state_root root_found
  root-lineage o =
      elim (Option-cases
        (cached o.cached_state_root o.cached_state_generation o.state_generation)) [
          | inl e ↦ rw e refl
          | inr (root, e) ↦ rw e refl
        ]

  state_root-SameRules : Steps SameRules (on_organism (state_root H))
  unfolding on_organism
  state_root-SameRules = record {
    at = λ s. record {
      constraints = root-constraints s.organism;
      lineage = root-lineage s.organism;
    };
  }

module _ (H : Host) (R : Floats) (S : Setting R) where
  log-SameRules :
      (n : ℕ) (cycle_id suffix event_type : String) (cause : Option String) (payload : Fields)
      → Steps SameRules (log H R S n cycle_id suffix event_type cause payload)
  unfolding log
  log-SameRules n cycle_id suffix event_type cause payload = on_journal-SameRules _

  count_cycle-SameRules : Steps SameRules (
      modify (λ (s : Engine). record s {
        runtime = record s.runtime { cycle_seq = s.runtime.cycle_seq + 1 };
      }))
  count_cycle-SameRules = record { at = λ s. record { constraints = refl; lineage = refl } }

  ruleset kept = (
    Steps-pure, Steps-raise, Steps-gets, Steps-bind, SameRules-order, log-SameRules,
    persist-SameRules, state_root-SameRules, count_cycle-SameRules,
  )

  pub open_cycle-SameRules : Steps SameRules (open_cycle H R S)
  unfolding open_cycle
  open_cycle-SameRules = search kept depth 12

  pub plan_step-SameRules : Steps SameRules (plan_step H R S)
  unfolding plan_step
  plan_step-SameRules = record { at = λ s. record { constraints = refl; lineage = refl } }

  pub observe-SameRules :
      (cycle_id tick : String) (action : RecoveryAction)
      → Steps SameRules (observe H R S cycle_id tick action)
  unfolding observe
  observe-SameRules cycle_id tick action = search kept depth 12
