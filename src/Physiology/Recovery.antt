-- ===== src/Physiology/Recovery.antt =====
-- app/physiology_recovery.py: all events page by page, the cycles that did not end, and their sealing.
pub mod Pages
pub mod Groups
pub mod Open
use gpt_project_bridge.Base.{
  ℕ, zero, suc, ◌+◌, String, ◌<>◌, Bool, true, false, not, ◌&&◌, ◌||◌, Option, none, some, List, [],
  ◌∷◌, ◌++◌, map, ok, value_error, Action, pure, gets, raise_if, ◌>>=◌, ◌>>◌, last?, any_of, select,
  sort_by, ◌==◌, if◌then◌else◌,
}
use gpt_project_bridge.Base.Text.{has_text}
use gpt_project_bridge.Json.{Fields, str, num, bool, list, to_fields}
use gpt_project_bridge.Host.{Host}
use gpt_project_bridge.Physiology.Journal.{JournalEvent, Journal, Entry, append, read}

-- `batch[-1].seq`, where there is one
unfoldable pub seq_of_last : Option JournalEvent → ℕ
seq_of_last none = 0
seq_of_last (some e) = e.seq

-- the events of one batch and those of the batches behind it
unfoldable pub then_rest :
    List JournalEvent
    → Action Journal (Option (List JournalEvent))
    → Action Journal (Option (List JournalEvent))
then_rest [] rest = pure (some [])
then_rest (e ∷ batch) rest =
    rest >>= λ more. pure (elim more [ none ↦ none | some es ↦ some ((e ∷ batch) ++ es) ])

-- `_all_events`; `none` stands for fuel that ran out
unfoldable pub all_events :
    (fuel after : ℕ) → (topic : String) → Action Journal (Option (List JournalEvent))
unfolding read then_rest seq_of_last
all_events zero after topic = pure none
all_events (suc fuel) after topic = read after 10000 (some topic) >>= λ batch.
    then_rest batch (all_events fuel (seq_of_last (last? batch)) topic)

pub record IncompleteCycle : Type 0 where
  pub cycle_id : String
  pub first_seq : ℕ
  pub last_seq : ℕ
  pub last_event_id : String
  pub event_types : List String

-- `grouped.setdefault(cycle_id, []).append(event)`
unfoldable pub add_to :
    String → JournalEvent → List (String × List JournalEvent) → List (String × List JournalEvent)
add_to id e [] = (id, e ∷ []) ∷ []
add_to id e ((k, es) ∷ groups) =
    let rest = add_to id e groups in if k == id then (k, es ++ e ∷ []) ∷ groups else (k, es) ∷ rest

-- an event of no cycle is passed over
unfoldable pub put_event :
    JournalEvent
    → Option String
    → List (String × List JournalEvent)
    → List (String × List JournalEvent)
unfolding add_to
put_event e none groups = groups
put_event e (some id) groups = if id == "" then groups else add_to id e groups

unfoldable pub group :
    List JournalEvent → List (String × List JournalEvent) → List (String × List JournalEvent)
unfolding put_event
group [] groups = groups
group (e ∷ es) groups = group es (put_event e e.correlation_id groups)

unfoldable pub is_terminal : JournalEvent → Bool
is_terminal e = e.event_type == "MEMORY_COMMIT" || e.event_type == "CYCLE_ABORTED"

-- a cycle that began and did not end
unfoldable pub is_open : List JournalEvent → Bool
unfolding is_terminal
is_open es = any_of (λ e. e.event_type == "TICK") es && not (any_of is_terminal es)

first_seq_of : List JournalEvent → ℕ
first_seq_of [] = 0
first_seq_of (e ∷ es) = e.seq

last_id : Option JournalEvent → String
last_id none = ""
last_id (some e) = e.event_id

unfoldable pub incomplete : String → List JournalEvent → IncompleteCycle
unfolding first_seq_of seq_of_last last_id
incomplete id ordered = record {
  cycle_id = id;
  first_seq = first_seq_of ordered;
  last_seq = seq_of_last (last? ordered);
  last_event_id = last_id (last? ordered);
  event_types = map (λ (e : JournalEvent). e.event_type) ordered;
}

unfoldable pub open_cycles : List (String × List JournalEvent) → List IncompleteCycle
unfolding is_open incomplete
open_cycles [] = []
open_cycles ((id, es) ∷ groups) =
    let ordered : List JournalEvent = sort_by (λ (e : JournalEvent). e.seq) es in
    let rest = open_cycles groups in if is_open ordered then incomplete id ordered ∷ rest else rest

-- the cycles of a list of events that did not end
unfoldable pub incomplete_in : List JournalEvent → List IncompleteCycle
unfolding group open_cycles
incomplete_in es = sort_by (λ (c : IncompleteCycle). c.first_seq) (open_cycles (group es []))

unfoldable pub find_incomplete_cycles : ℕ → Action Journal (Option (List IncompleteCycle))
unfolding all_events incomplete_in
find_incomplete_cycles fuel = all_events fuel 0 "physiology" >>= λ found.
    pure (elim found [ none ↦ none | some es ↦ some (incomplete_in es) ])

-- the event that seals a cycle
unfoldable pub abortion : String → IncompleteCycle → Entry
abortion why c = record {
  event_id = c.cycle_id <> ":aborted";
  topic = "physiology";
  event_type = "CYCLE_ABORTED";
  payload = to_fields (
      ("cycle_id", str c.cycle_id)
      ∷ ("reason", str why)
      ∷ ("first_seq", num c.first_seq)
      ∷ ("last_seq", num c.last_seq)
      ∷ ("observed_event_types", list (map str c.event_types))
      ∷ ("closed", bool false)
      ∷ ("terminal", bool true)
      ∷ []);
  causation_id = some c.last_event_id;
  correlation_id = some c.cycle_id;
}

module _ (H : Host) (why : String) (clock : ℕ → ℕ) where
  -- the n-th cycle is sealed at the n-th time
  unfoldable pub seal_all : ℕ → List IncompleteCycle → Action Journal (List String)
  unfolding append abortion
  seal_all n [] = pure []
  seal_all n (c ∷ cs) = append H (clock n) (abortion why c) >>= λ event.
      seal_all (suc n) cs >>= λ rest. pure (event.event_id ∷ rest)

  unfoldable pub seal_found : Option (List IncompleteCycle) → Action Journal (Option (List String))
  unfolding seal_all
  seal_found none = pure none
  seal_found (some cs) = seal_all 0 cs >>= λ ids. pure (some ids)

  unfoldable pub seal_incomplete_cycles : ℕ → Action Journal (Option (List String))
  unfolding find_incomplete_cycles seal_found
  seal_incomplete_cycles fuel =
      raise_if (not (has_text why)) (value_error "reason must be non-empty")
      >> find_incomplete_cycles fuel
      >>= λ found. seal_found found
