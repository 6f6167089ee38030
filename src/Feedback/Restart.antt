-- ===== src/Feedback/Restart.antt =====
-- The state of the feedback after a restart: the constructor of `ClosedLoopPhysiologyEngine` in
-- app/physiology_effect_feedback.py, as far as it reads the state.
use gpt_project_bridge.Base.{String, ◌<>◌, Result, ok, Action, lift, gets, ◌>>=◌}
use gpt_project_bridge.Json.{Json, null}
use gpt_project_bridge.Host.{Host}
use gpt_project_bridge.Auth.{Integer}
use gpt_project_bridge.Physiology.Journal.{Journal, get_state}
use gpt_project_bridge.Organism.State.{Organism}
use gpt_project_bridge.Physiology.Engine.{Engine, on_journal}
use gpt_project_bridge.Feedback.State.{FeedbackState, empty_feedback, load_persisted_state}

module _ (H : Host) (to_int : Json → Result Integer) (mac : String → String) where
  -- the stored state, where there is one
  unfoldable pub stored_or_empty : Json → Result FeedbackState
  unfolding load_persisted_state
  stored_or_empty null = ok empty_feedback
  stored_or_empty v = load_persisted_state H to_int mac v

  -- what the constructor takes for the state of the feedback
  unfoldable pub start_feedback : Action Engine FeedbackState
  start_feedback = do
    organism_id ← gets (λ s. s.organism.organism_id)
    stored ← on_journal (get_state ("physiology-effect-feedback:" <> organism_id) null)
    lift (stored_or_empty stored)
