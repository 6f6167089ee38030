-- ===== src/Feedback/Gated.antt =====
-- The recovery gate of app/physiology_effect_feedback.py keeps other proposals from being executed.
use gpt_project_bridge.Base.{
  String, ◌≡◌, sym, ap, ◌∙◌, inl, inr, true, false, none, some, ok, Action, Bool-cases, arith,
}
use gpt_project_bridge.Base.Inversion.{bind-ok}
use gpt_project_bridge.Json.{Fields, get, is_text}
use gpt_project_bridge.Host.{Host}
use gpt_project_bridge.Core.{hold}
use gpt_project_bridge.Physiology.Controller.{Floats}
use gpt_project_bridge.Physiology.Engine.{Engine}
use gpt_project_bridge.Physiology.Engine.Act.{Asked}
use gpt_project_bridge.Physiology.Engine.Cycle.{CycleResult, tick}
use gpt_project_bridge.Physiology.Engine.Executed.{tick-Executed}
use gpt_project_bridge.Feedback.State.{FeedbackState}
use gpt_project_bridge.Feedback.Loop.{ClosedLoop, ClosedLoopCycleResult, opt_copied, recovery_gate}
use gpt_project_bridge.Feedback.Effect.{LoopSetting, on_engine}
use gpt_project_bridge.Feedback.Tick.{
  inner, record_gate_hold, held_result, held_cycle, gated_tick, closed_tick,
}

on_engine-ok :
    {A : Type 0} (m : Action Engine A) (s t : ClosedLoop) {a : A}
    → on_engine m s ≡ (ok a, t)
    → m s.engine ≡ (ok a, t.engine)
unfolding on_engine
on_engine-ok m s t e = λ i. ((e i).0, (e i).1.engine)

recovery_gate-text :
    (s : FeedbackState) (proposal : Fields) (c : String)
    → s.recovery_for_cycle_id ≡ some c
    → is_text c (get "recovery_for" proposal) ≡ false
    → recovery_gate s (some proposal) ≡ false
unfolding recovery_gate
recovery_gate-text s proposal c e h = rw e h

module _ (H : Host) (R : Floats) (L : LoopSetting R) where
  -- a cycle that executed was asked to
  executed-asked :
      (a : Asked) (s : Engine) {r : CycleResult} {t : Engine}
      → tick H R (inner H R L) a s ≡ (ok r, t)
      → r.executed ≡ true
      → (proposal : Fields) × (a.proposal ≡ some proposal)
  executed-asked a s e x =
      let (done, _) = tick-Executed H R (inner H R L) a s e x in (done.proposal, done.asked)

  held_result_lem :
      (cycle : CycleResult) (s t : ClosedLoop) {r : ClosedLoopCycleResult}
      → held_result H R L cycle s ≡ (ok r, t)
      → r.cycle ≡ cycle
  unfolding held_result
  held_result_lem cycle s t e = ground arith

  held_cycle-idle :
      (a : Asked) (s t : ClosedLoop) {r : ClosedLoopCycleResult}
      → held_cycle H R L a s ≡ (ok r, t)
      → r.cycle.executed ≡ true
      → ⊥
  unfolding held_cycle
  held_cycle-idle a s t {r} e x =
      let still : Asked = record a { proposal = none } in
      let (cycle, s1, e1, k1) =
        bind-ok (on_engine (tick H R (inner H R L) still)) (held_result H R L) s e in
      let same = held_result_lem cycle s1 t k1 in
      let (proposal, asked) =
        executed-asked still s.engine (on_engine-ok (tick H R (inner H R L) still) s s1 e1)
          (ap (λ (c : CycleResult). c.executed) (sym same) ∙ x) in
      cc asked

  held_cycle-feedback :
      (a : Asked) (s t : ClosedLoop) {r : ClosedLoopCycleResult}
      → held_cycle H R L a s ≡ (ok r, t)
      → (r.effective_decision ≡ some hold) × (t.feedback ≡ s.feedback)
  unfolding held_cycle held_result record_gate_hold on_engine
  held_cycle-feedback a s t {r} e = ground arith

  -- While the recovery from a cycle is required, a tick with a proposal whose copy does not name that
  -- cycle under "recovery_for" executes nothing, where it returns: its decision is HOLD, and the state of
  -- the feedback stays as it was.
  pub closed_tick-held :
      (a : Asked) (s t : ClosedLoop) {r : ClosedLoopCycleResult} (proposal : Fields) (c : String)
      → opt_copied H a.proposal ≡ ok (some proposal)
      → s.feedback.recovery_for_cycle_id ≡ some c
      → is_text c (get "recovery_for" proposal) ≡ false
      → closed_tick H R L a s ≡ (ok r, t)
      → (r.cycle.executed ≡ false) × (r.effective_decision ≡ some hold) × (t.feedback ≡ s.feedback)
  unfolding closed_tick gated_tick
  closed_tick-held a s t {r} proposal c copy required unnamed e =
      let gate = recovery_gate-text s.feedback proposal c required unnamed in
      let went : held_cycle H R L (record a { proposal = some proposal }) s ≡ (ok r, t) =
        rw (copy, gate) at e in
      let kept = held_cycle-feedback (record a { proposal = some proposal }) s t went in
      (
        elim (Bool-cases r.cycle.executed) [
          | inl x ↦ absurd (held_cycle-idle (record a { proposal = some proposal }) s t went x)
          | inr x ↦ x
        ],
        kept.0,
        kept.1,
      )
