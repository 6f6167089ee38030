-- ===== src/Physiology/Engine.antt =====
-- The state of `PhysiologyEngine` in app/physiology.py and the parts of a cycle. The telemetry, the
-- check of the journal's file, the clock and the executor are inputs.
pub mod Sense
pub mod Act
pub mod Cycle
pub mod Safe
pub mod Executed
pub mod Sensed
use gpt_project_bridge.Base.{
  ℕ, ◌+◌, String, ◌<>◌, Bool, true, false, Option, none, some, List, [], ◌∷◌, map, ok, Result, err,
  value_error, Action, pure, raise, gets, modify, ◌>>=◌, ◌>>◌,
}
use gpt_project_bridge.Json.{
  Json, Fields, null, str, num, bool, obj, dict, list, opt_str, opt_num, to_fields,
}
use gpt_project_bridge.Host.{Host}
use gpt_project_bridge.Organism.State.{Organism}
use gpt_project_bridge.Physiology.Journal.{Journal, JournalEvent, Entry, append, set_state}
use gpt_project_bridge.Physiology.Controller.{
  Floats, TelemetrySample, HomeostaticPolicy, RuntimeState, HealthState, health_value,
  RecoveryAction, action_value,
}

pub record Engine : Type 0 where
  pub organism : Organism
  pub journal : Journal
  pub runtime : RuntimeState

-- What an executor does with a proposal: it returns an `ExecutionResult`, or something else, or raises.
pub data Outcome : Type 0 where
  returned : (status : String) (effect : Fields) → Outcome
  other : Outcome
  raised : (error_type error_message : String) → Outcome

-- What the engine is given at its construction and reads of the world in a cycle; `clock` has the
-- times of the journal's entries.
pub record Setting (R : Floats) : Type 0 where
  pub policy : HomeostaticPolicy R
  pub executor : Option (Fields → Outcome)
  pub sample : TelemetrySample R
  pub journal_ok : Bool
  pub clock : ℕ → ℕ

unfoldable pub on_journal : {A : Type 0} → Action Journal A → Action Engine A
on_journal m s = let (r, j) = m s.journal in (r, record s { journal = j })

unfoldable pub on_organism : {A : Type 0} → Action Organism A → Action Engine A
on_organism m s = let (r, o) = m s.organism in (r, record s { organism = o })

unfoldable pub runtime_json : RuntimeState → Json
runtime_json r = dict (
    ("cycle_seq", num r.cycle_seq)
    ∷ ("safe_mode", bool r.in_safe_mode)
    ∷ ("normal_streak", num r.normal_streak)
    ∷ ("throttled", bool r.throttled)
    ∷ [])

-- `_persist_runtime_state`
unfoldable pub persist_runtime_state : Action Engine (Unit {0})
persist_runtime_state s =
    on_journal (set_state ("physiology:" <> s.organism.organism_id) (runtime_json s.runtime)) s

-- an event of a cycle: the suffix of its id, its type, its cause and its payload
unfoldable pub entry : String → String → String → Option String → Fields → Entry
entry cycle_id suffix event_type causation_id payload = record {
  event_id = cycle_id <> suffix;
  topic = "physiology";
  event_type = event_type;
  payload = payload;
  causation_id = causation_id;
  correlation_id = some cycle_id;
}

instrument : String × String → String × Json
instrument (k, v) = (k, str v)

module _ (R : Floats) where
  load_json : Option R.F → Json
  load_json none = null
  load_json (some x) = R.dump x

  -- `asdict(sample)`
  unfoldable pub sample_json : TelemetrySample R → Json
  unfolding load_json instrument
  sample_json s = dict (
      ("monotonic_ns", num s.monotonic_ns)
      ∷ ("process_time_ns", num s.process_time_ns)
      ∷ ("disk_total_bytes", num s.disk_total_bytes)
      ∷ ("disk_used_bytes", num s.disk_used_bytes)
      ∷ ("disk_free_bytes", num s.disk_free_bytes)
      ∷ ("rss_bytes", opt_num s.rss_bytes)
      ∷ ("load_1m", load_json s.load_1m)
      ∷ ("instruments", dict (map instrument s.instruments))
      ∷ [])
