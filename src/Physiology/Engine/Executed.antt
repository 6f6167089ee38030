-- ===== src/Physiology/Engine/Executed.antt =====
-- What a cycle of app/physiology.py that executed a proposal must have found.
use gpt_project_bridge.Base.{
  String, ◌≡◌, ◌≢◌, refl, sym, ap, ◌∙◌, inl, inr, true, false, Option, none, some, Result, ok,
  ◌>>=◌, Bool-cases, arith, Action, subst,
}
use gpt_project_bridge.Base.Inversion.{bind-ok}
use gpt_project_bridge.Base.Steps.{Steps}
use gpt_project_bridge.Json.{Fields}
use gpt_project_bridge.Host.{Host}
use gpt_project_bridge.Core.{pass}
use gpt_project_bridge.Organism.State.{Organism}
use gpt_project_bridge.Physiology.Journal.{JournalEvent}
use gpt_project_bridge.Physiology.Controller.{
  Floats, critical, RuntimeState, plan_recovery, RecoveryAction,
}
use gpt_project_bridge.Physiology.Engine.{Engine, Setting}
use gpt_project_bridge.Physiology.Engine.Sense.{Planned, open_cycle, assessment, plan_step, observe}
use gpt_project_bridge.Physiology.Engine.Act.{Asked, Acted, submit, act}
use gpt_project_bridge.Physiology.Engine.Cycle.{CycleResult, close_cycle, finish, proceed, tick}
use gpt_project_bridge.Physiology.Engine.Safe.{
  Passed, observe-Same, close_cycle-Same, refuse-idle, submit-Passed, submit-Same,
}
use gpt_project_bridge.Physiology.Engine.Sensed.{
  SameRules, open_cycle-SameRules, plan_step-SameRules, observe-SameRules,
}

module _ (H : Host) (R : Floats) (S : Setting R) where
  act-Passed :
      (a : Asked) (cycle_id plan : String) (asked : Option Fields) (s : Engine) {acted : Acted}
      {t : Engine}
      → act H R S a cycle_id plan asked s ≡ (ok acted, t)
      → acted.executed ≡ true
      → ((proposal : Fields) × (asked ≡ some proposal)
          × Passed H R S a cycle_id proposal s.organism acted)
        × (s.runtime.in_safe_mode ≡ false)
        × (t.runtime ≡ s.runtime)
  unfolding act
  act-Passed a cycle_id plan none s e x = absurd (ground arith)
  act-Passed a cycle_id plan (some proposal) s {acted} {t} e x =
      elim (Bool-cases s.runtime.in_safe_mode) [
        | inl safe ↦
            let idle =
              refuse-idle H R S cycle_id plan proposal s {acted = acted} {t = t} (simp safe at e) in
            cc (idle, x)
        | inr out ↦
            let went : submit H R S a cycle_id plan proposal s ≡ (ok acted, t) = simp out at e in
            (
              (proposal, refl, submit-Passed H R S a cycle_id plan proposal s went x),
              out,
              ap (λ (q : Result Acted × Engine). q.1.runtime) (sym went)
                  ∙ ((submit-Same H R S a cycle_id plan proposal).at s).runtime,
            )
      ]

  close_cycle_lem :
      (cycle_id : String) (p : Planned) (acted : Acted) (s : Engine) {r : CycleResult} {t : Engine}
      → close_cycle H R S cycle_id p acted s ≡ (ok r, t)
      → (r.executed ≡ acted.executed)
        × (r.decision ≡ acted.decision)
        × (r.health ≡ p.health)
        × (r.cycle_id ≡ cycle_id)
  unfolding close_cycle
  close_cycle_lem cycle_id p acted s e = (ground arith, ground arith, ground arith, ground arith)

  observe_lem :
      (cycle_id event : String) (action : RecoveryAction) (s : Engine) {p : Planned} {t : Engine}
      → observe H R S cycle_id event action s ≡ (ok p, t)
      → p.health ≡ (assessment H R S).state
  unfolding observe
  observe_lem cycle_id event action s e = ground arith

  plan_step_lem :
      (s : Engine)
      → (assessment H R S).state ≡ critical
      → (plan_step H R S s).1.runtime.in_safe_mode ≡ true
  unfolding plan_step plan_recovery
  plan_step_lem s e = simp e

  planned_action : Engine → RecoveryAction
  planned_action s =
      (plan_recovery S.policy.normal_streak_to_exit_safe_mode (assessment H R S).state s.runtime).0

  proceed-step :
      (a : Asked) (opened : String × JournalEvent) (s : Engine)
      → (observe H R S opened.0 opened.1.event_id (planned_action s) >>= finish H R S a opened.0)
          (plan_step H R S s).1
        ≡ proceed H R S a opened s
  unfolding proceed plan_step planned_action
  proceed-step a opened s = refl

  -- what a cycle that executed has found by its end, of the engine before it and after it
  pub record Executed (a : Asked) (s : Engine) (r : CycleResult) (t : Engine) : Type 0 where
    pub cycle_id : String
    pub cycle : r.cycle_id ≡ cycle_id
    pub proposal : Fields
    pub acted : Acted
    pub asked : a.proposal ≡ some proposal
    pub organism : Organism
    pub constraints : organism.constraints ≡ s.organism.constraints
    pub lineage : organism.lineage ≡ s.organism.lineage
    pub answer : Passed H R S a cycle_id proposal organism acted
    pub decision : r.decision ≡ some pass
    pub awake : t.runtime.in_safe_mode ≡ false

  sensed :
      {a : Asked} {s s' : Engine} {r : CycleResult} {t : Engine}
      → SameRules s s'
      → Executed a s' r t
      → Executed a s r t
  sensed same done = record {
    cycle_id = done.cycle_id;
    cycle = done.cycle;
    proposal = done.proposal;
    acted = done.acted;
    asked = done.asked;
    organism = done.organism;
    constraints = done.constraints ∙ same.constraints;
    lineage = done.lineage ∙ same.lineage;
    answer = done.answer;
    decision = done.decision;
    awake = done.awake;
  }

  ran-SameRules :
      {A : Type 0} (m : Action Engine A) (s t : Engine) {x : A}
      → Steps SameRules m
      → m s ≡ (ok x, t)
      → SameRules s t
  ran-SameRules m s t h e = subst (λ (u : Result _ × Engine). SameRules s u.1) e (h.at s)

  finish-Executed :
      (a : Asked) (cycle_id : String) (p : Planned) (s : Engine) {r : CycleResult} {t : Engine}
      → finish H R S a cycle_id p s ≡ (ok r, t)
      → r.executed ≡ true
      → Executed a s r t × (s.runtime.in_safe_mode ≡ false) × (r.health ≡ p.health)
  unfolding finish
  finish-Executed a cycle_id p s {r} {t} e x =
      let (acted, s1, u, v) =
        bind-ok (act H R S a cycle_id p.plan_event_id a.proposal) (close_cycle H R S cycle_id p) s
          {b = r} {t = t} e in
      let (executed, decided, health, cycle) = close_cycle_lem cycle_id p acted s1 v in
      let ((proposal, is_asked, answer), out, same) =
        act-Passed a cycle_id p.plan_event_id a.proposal s u (sym executed ∙ x) in
      let closed : t.runtime ≡ s1.runtime =
        ap (λ (q : Result CycleResult × Engine). q.1.runtime) (sym v)
        ∙ ((close_cycle-Same H R S cycle_id p acted).at s1).runtime in
      (
        record {
          cycle_id = cycle_id;
          cycle = cycle;
          proposal = proposal;
          acted = acted;
          asked = is_asked;
          organism = s.organism;
          constraints = refl;
          lineage = refl;
          answer = answer;
          decision = decided ∙ answer.decision ∙ ap some answer.passed;
          awake = ap (λ (w : RuntimeState). w.in_safe_mode) (closed ∙ same) ∙ out;
        },
        out,
        health,
      )

  proceed-Executed :
      (a : Asked) (opened : String × JournalEvent) (s : Engine) {r : CycleResult} {t : Engine}
      → proceed H R S a opened s ≡ (ok r, t)
      → r.executed ≡ true
      → Executed a s r t × (r.health ≢ critical)
  unfolding proceed
  proceed-Executed a opened s {r} {t} e x =
      let s1 : Engine = (plan_step H R S s).1 in
      let action : RecoveryAction = planned_action s in
      let (planned, s2, u, v) =
        bind-ok (observe H R S opened.0 opened.1.event_id action) (finish H R S a opened.0) s1
          {b = r} {t = t} (proceed-step a opened s ∙ e) in
      let (done, out, health) = finish-Executed a opened.0 planned s2 v x in
      let observed : s2.runtime ≡ s1.runtime =
        ap (λ (q : Result Planned × Engine). q.1.runtime) (sym u)
        ∙ ((observe-Same H R S opened.0 opened.1.event_id action).at s1).runtime in
      (
        sensed ((plan_step-SameRules H R S).at s) (
            sensed
              (ran-SameRules (observe H R S opened.0 opened.1.event_id action) s1 s2
                (observe-SameRules H R S opened.0 opened.1.event_id action) u)
              done),
        λ bad.
            let entered =
              plan_step_lem s
                (sym (observe_lem opened.0 opened.1.event_id action s1 u) ∙ sym health ∙ bad) in
            cc (entered, out, ap (λ (w : RuntimeState). w.in_safe_mode) observed),
      )

  -- A cycle whose proposal counts as executed: the proposal was asked for; the organism, with the
  -- constraints and the lineage that it had before the cycle, was asked to evaluate it and answered
  -- PASS, which is the decision of the cycle; the engine's executor was run on it and returned; the
  -- engine is not in safe mode at the end; and its health in this cycle was not critical.
  pub tick-Executed :
      (a : Asked) (s : Engine) {r : CycleResult} {t : Engine}
      → tick H R S a s ≡ (ok r, t)
      → r.executed ≡ true
      → Executed a s r t × (r.health ≢ critical)
  unfolding tick
  tick-Executed a s {r} {t} e x =
      let (opened, s1, u, v) = bind-ok (open_cycle H R S) (proceed H R S a) s {b = r} {t = t} e in
      let (done, fit) = proceed-Executed a opened s1 v x in
      (sensed (ran-SameRules (open_cycle H R S) s s1 (open_cycle-SameRules H R S) u) done, fit)
