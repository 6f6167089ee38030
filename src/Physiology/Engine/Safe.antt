-- ===== src/Physiology/Engine/Safe.antt =====
-- When a cycle of app/physiology.py executes a proposal.
use gpt_project_bridge.Base.{
  ok_inj, ℕ, String, ◌≡◌, refl, sym, ap, ◌∙◌, Bool, true, false, Option, none, some, [], ◌∷◌, ok,
  Action, pure, ◌>>◌, arith,
}
use gpt_project_bridge.Base.Inversion.{bind-ok}
use gpt_project_bridge.Base.Steps.{
  IsPreorder, Steps, Steps-pure, Steps-raise, Steps-gets, Steps-bind,
}
use gpt_project_bridge.Json.{Fields, bool, to_fields}
use gpt_project_bridge.Host.{Host}
use gpt_project_bridge.Core.{Decision, pass, block, hold}
use gpt_project_bridge.Organism.Loop.{LoopResult}
use gpt_project_bridge.Organism.State.{Organism}
use gpt_project_bridge.Organism.Evaluate.{evaluate}
use gpt_project_bridge.Physiology.Journal.{JournalEvent}
use gpt_project_bridge.Physiology.Controller.{Floats, RecoveryAction}
use gpt_project_bridge.Physiology.Engine.{
  Engine, Outcome, returned, other, raised, Setting, on_journal, on_organism, persist_runtime_state,
}
use gpt_project_bridge.Physiology.Engine.Sense.{Planned, log, observe}
use gpt_project_bridge.Physiology.Engine.Act.{
  Asked, Acted, effect_of, record_attempt, execute, refuse, carry_out, log_decision, decide,
  question, submit,
}
use gpt_project_bridge.Physiology.Engine.Cycle.{close_cycle, tick}

-- The runtime state is left as it is.
pub record Same (s t : Engine) : Type 0 where
  pub runtime : t.runtime ≡ s.runtime

pub Same-order : IsPreorder Same
Same-order = record {
  refl_at = λ s. record { runtime = refl };
  trans_at = λ s t u g h. record { runtime = h.runtime ∙ g.runtime };
}

on_journal-Same : {A : Type 0} (m : Action _ A) → Steps Same (on_journal m)
unfolding on_journal
on_journal-Same m = record { at = λ s. record { runtime = refl } }

on_organism-Same : {A : Type 0} (m : Action _ A) → Steps Same (on_organism m)
unfolding on_organism
on_organism-Same m = record { at = λ s. record { runtime = refl } }

persist-Same : Steps Same persist_runtime_state
unfolding persist_runtime_state on_journal
persist-Same = record { at = λ s. record { runtime = refl } }

ruleset same = (
  Steps-pure, Steps-raise, Steps-gets, Steps-bind, Same-order, on_journal-Same, on_organism-Same,
  persist-Same,
)

module _ (H : Host) (R : Floats) (S : Setting R) where
  log-Same :
      (n : ℕ) (cycle_id suffix event_type : String) (cause : Option String) (payload : Fields)
      → Steps Same (log H R S n cycle_id suffix event_type cause payload)
  unfolding log
  log-Same n cycle_id suffix event_type cause payload = search same depth 5

  pub observe-Same :
      (cycle_id tick : String) (action : RecoveryAction)
      → Steps Same (observe H R S cycle_id tick action)
  unfolding observe
  observe-Same cycle_id tick action = search (same, log-Same) depth 12

  pub close_cycle-Same :
      (cycle_id : String) (p : Planned) (acted : Acted)
      → Steps Same (close_cycle H R S cycle_id p acted)
  unfolding close_cycle
  close_cycle-Same cycle_id p acted = search (same, log-Same) depth 12

  effect_of-Same : (o : Outcome) → Steps Same (effect_of H R S o)
  unfolding effect_of
  effect_of-Same (returned status effect) = search same depth 3
  effect_of-Same other = search same depth 3
  effect_of-Same (raised t m) = search same depth 3

  record_attempt-Same :
      (cycle_id event : String) (d : Decision) (done : Fields × Bool)
      → Steps Same (record_attempt H R S cycle_id event d done)
  unfolding record_attempt
  record_attempt-Same cycle_id event d done = search (same, log-Same) depth 9

  execute-Same :
      (cycle_id event : String) (d : Decision) (proposal : Fields) (run : Option (Fields → Outcome))
      → Steps Same (execute H R S cycle_id event d proposal run)
  unfolding execute
  execute-Same cycle_id event d proposal none = search same depth 3
  execute-Same cycle_id event d proposal (some run) =
      search (same, record_attempt-Same, effect_of-Same) depth 6

  -- The executor that the engine has returned on the proposal.
  pub record Ran (proposal : Fields) (acted : Acted) : Type 0 where
    pub run : Fields → Outcome
    pub executor : S.executor ≡ some run
    pub status : String
    pub effect : Fields
    pub outcome : run proposal ≡ returned status effect

  effect_of-done :
      (o : Outcome) (s : Engine) {fs : Fields} {t : Engine}
      → effect_of H R S o s ≡ (ok (fs, true), t)
      → (status : String) × (effect : Fields) × (o ≡ returned status effect)
  unfolding effect_of
  effect_of-done (returned status effect) s e = (status, effect, refl)
  effect_of-done other s e = absurd (ground arith)
  effect_of-done (raised x m) s e = absurd (ground arith)

  record_attempt-done :
      (cycle_id event : String) (d : Decision) (done : Fields × Bool) (s : Engine) {acted : Acted}
      {t : Engine}
      → record_attempt H R S cycle_id event d done s ≡ (ok acted, t)
      → (acted.decision ≡ some d) × (acted.executed ≡ done.1)
  unfolding record_attempt
  record_attempt-done cycle_id event d done s {acted} {t} e =
      let (execution, s1, a, b) =
        bind-ok
          (log H R S 4 cycle_id ":execution" "EXECUTION" (some event)
            (to_fields (("attempted", bool true) ∷ ("executed", bool done.1) ∷ [])))
          (λ execution.
            log H R S 5 cycle_id ":effect" "EFFECT" (some execution.event_id) done.0
            >> pure (record {
              decision = some d;
              executed = done.1;
              execution_event_id = some execution.event_id;
            }))
          s {b = acted} {t = t} e in
      let (effect, s2, c, g) =
        bind-ok (log H R S 5 cycle_id ":effect" "EFFECT" (some execution.event_id) done.0)
          (λ _. pure (record {
            decision = some d;
            executed = done.1;
            execution_event_id = some execution.event_id;
          }))
          s1 {b = acted} {t = t} b in
      let back : ◌≡◌ {A = Acted}
          (record {
            decision = some d;
            executed = done.1;
            execution_event_id = some execution.event_id;
          })
          acted =
        ok_inj (ap (λ q. q.0) g) in
      (sym (ap (λ (x : Acted). x.decision) back), sym (ap (λ (x : Acted). x.executed) back))

  carry_out-Same :
      (cycle_id : String) (proposal : Fields) (event : JournalEvent) (d : Decision)
      → Steps Same (carry_out H R S cycle_id proposal event d)
  unfolding carry_out
  carry_out-Same cycle_id proposal event pass =
      execute-Same cycle_id event.event_id pass proposal S.executor
  carry_out-Same cycle_id proposal event block = search same depth 3
  carry_out-Same cycle_id proposal event hold = search same depth 3

  log_decision-Same :
      (cycle_id plan : String) (result : LoopResult)
      → Steps Same (log_decision H R S cycle_id plan result)
  unfolding log_decision
  log_decision-Same cycle_id plan result = search (same, log-Same) depth 6

  decide-Same :
      (cycle_id plan : String) (proposal : Fields) (result : LoopResult)
      → Steps Same (decide H R S cycle_id plan proposal result)
  unfolding decide
  decide-Same cycle_id plan proposal result =
      search (same, log_decision-Same, carry_out-Same) depth 6

  pub submit-Same :
      (a : Asked) (cycle_id plan : String) (proposal : Fields)
      → Steps Same (submit H R S a cycle_id plan proposal)
  unfolding submit
  submit-Same a cycle_id plan proposal = search (same, decide-Same) depth 6

  pub refuse-Same :
      (cycle_id plan : String) (proposal : Fields)
      → Steps Same (refuse H R S cycle_id plan proposal)
  unfolding refuse
  refuse-Same cycle_id plan proposal = search (same, log-Same) depth 6

  execute-Ran :
      (cycle_id event : String) (d : Decision) (proposal : Fields) (run : Option (Fields → Outcome))
      (s : Engine) {acted : Acted} {t : Engine}
      → execute H R S cycle_id event d proposal run s ≡ (ok acted, t)
      → acted.executed ≡ true
      → run ≡ S.executor
      → (acted.decision ≡ some d) × Ran proposal acted
  unfolding execute
  execute-Ran cycle_id event d proposal none s e x given = absurd (ground arith)
  execute-Ran cycle_id event d proposal (some run) s {acted} {t} e x given =
      let ((effect, ok_so), s1, a, b) =
        bind-ok (effect_of H R S (run proposal)) (record_attempt H R S cycle_id event d) s
          {b = acted} {t = t} e in
      let (decided, executed) = record_attempt-done cycle_id event d (effect, ok_so) s1 b in
      let (status, fs, outcome) =
        effect_of-done (run proposal) s {fs = effect} {t = s1}
          (a ∙ ap (λ u. (ok (effect, u), s1)) (sym executed ∙ x)) in
      (
        decided,
        record { run = run; executor = sym given; status = status; effect = fs; outcome = outcome },
      )

  carry_out-Ran :
      (cycle_id : String) (proposal : Fields) (event : JournalEvent) (d : Decision) (s : Engine)
      {acted : Acted} {t : Engine}
      → carry_out H R S cycle_id proposal event d s ≡ (ok acted, t)
      → acted.executed ≡ true
      → (d ≡ pass) × (acted.decision ≡ some d) × Ran proposal acted
  unfolding carry_out
  carry_out-Ran cycle_id proposal event pass s e x =
      let ran = execute-Ran cycle_id event.event_id pass proposal S.executor s e x refl in
      (refl, ran.0, ran.1)
  carry_out-Ran cycle_id proposal event block s e x = absurd (ground arith)
  carry_out-Ran cycle_id proposal event hold s e x = absurd (ground arith)

  pub refuse-idle :
      (cycle_id plan : String) (proposal : Fields) (s : Engine) {acted : Acted} {t : Engine}
      → refuse H R S cycle_id plan proposal s ≡ (ok acted, t)
      → acted.executed ≡ false
  unfolding refuse
  refuse-idle cycle_id plan proposal s e = ground arith

  -- What the organism answered on the proposal, and what was made of the answer.
  pub record Passed (a : Asked) (cycle_id : String) (proposal : Fields) (o : Organism)
      (acted : Acted) : Type 0 where
    pub result : LoopResult
    pub after : Organism
    pub evaluated : evaluate H (question H R S a cycle_id proposal) o ≡ (ok result, after)
    pub passed : result.decision ≡ pass
    pub decision : acted.decision ≡ some result.decision
    pub ran : Ran proposal acted

  on_organism-ok :
      {A : Type 0} (m : Action Organism A) (s t : Engine) {r : A}
      → on_organism m s ≡ (ok r, t)
      → m s.organism ≡ (ok r, t.organism)
  unfolding on_organism
  on_organism-ok m s t e = λ i. ((e i).0, (e i).1.organism)

  pub submit-Passed :
      (a : Asked) (cycle_id plan : String) (proposal : Fields) (s : Engine) {acted : Acted}
      {t : Engine}
      → submit H R S a cycle_id plan proposal s ≡ (ok acted, t)
      → acted.executed ≡ true
      → Passed a cycle_id proposal s.organism acted
  unfolding submit decide
  submit-Passed a cycle_id plan proposal s {acted} {t} e x =
      let (result, s1, p, q) =
        bind-ok (on_organism (evaluate H (question H R S a cycle_id proposal)))
          (decide H R S cycle_id plan proposal) s {b = acted} {t = t} e in
      let (event, s2, u, v) =
        bind-ok (log_decision H R S cycle_id plan result)
          (λ event. carry_out H R S cycle_id proposal event result.decision) s1 {b = acted} {t = t}
          q in
      let (passed, decision, ran) = carry_out-Ran cycle_id proposal event result.decision s2 v x in
      record {
        result = result;
        after = s1.organism;
        evaluated = on_organism-ok (evaluate H (question H R S a cycle_id proposal)) s s1 p;
        passed = passed;
        decision = decision;
        ran = ran;
      }
