-- ===== src/Physiology/Journal.antt =====
-- `DurableEventJournal` of app/physiology.py: events with unique ids, offsets of consumers, and values
-- by key. A column of JSON text is kept as its value; `updated_ns`, which nothing reads, is left out;
-- a time is given by the caller, and is a natural number.
pub mod Growth
pub mod History
pub mod Again
use gpt_project_bridge.Base.{
  ℕ, zero, suc, ◌+◌, String, ◌<>◌, Bool, true, false, not, ◌&&◌, ◌||◌, Option, none, some, List, [],
  ◌∷◌, ◌++◌, length, Result, ok, err, value_error, integrity_error, runtime_error, Action, pure,
  raise, lift, gets, modify, raise_if, or_raise, ◌>>=◌, ◌>>◌, any_of, find_first, select, max_of,
  opt_str_eq, ltb, leb, nat_eq, ◌==◌, if◌then◌else◌,
}
use gpt_project_bridge.Base.Dict.{lookup}
use gpt_project_bridge.Base.Text.{has_text, strip}
use gpt_project_bridge.Json.{Json, Fields, str, num, bool, obj, opt_str, to_fields, json_eq}
use gpt_project_bridge.Host.{Host}
use gpt_project_bridge.Evidence.{receipt_hash}

-- A row of `events`, and `JournalEvent`.
pub record JournalEvent : Type 0 where
  pub seq : ℕ
  pub event_id : String
  pub topic : String
  pub event_type : String
  pub payload : Fields
  pub created_ns : ℕ
  pub causation_id : Option String
  pub correlation_id : Option String
  pub receipt_hash : String

pub record Journal : Type 0 where
  pub events : List JournalEvent
  pub offsets : List (String × ℕ)
  pub runtime_state : List (String × Json)

abbrev pub empty_journal : Journal
empty_journal = record { events = []; offsets = []; runtime_state = [] }

-- `_validate_label`
unfoldable pub validate_label : String → String → Result String
validate_label value name =
    if has_text value
    then ok (strip value)
    else err (value_error (name <> " must be a non-empty string"))

-- The arguments of `append` but for the time.
pub record Entry : Type 0 where
  pub event_id : String
  pub topic : String
  pub event_type : String
  pub payload : Fields
  pub causation_id : Option String
  pub correlation_id : Option String

unfoldable pub event_core : Entry → ℕ → Fields
event_core e created = to_fields (
    ("schema", str "matverse.physiology.v1")
    ∷ ("event_id", str e.event_id)
    ∷ ("topic", str e.topic)
    ∷ ("event_type", str e.event_type)
    ∷ ("payload", obj e.payload)
    ∷ ("created_ns", num created)
    ∷ ("causation_id", opt_str e.causation_id)
    ∷ ("correlation_id", opt_str e.correlation_id)
    ∷ [])

unfoldable pub new_event : Host → Entry → ℕ → ℕ → JournalEvent
new_event H e created seq = record {
  seq = seq;
  event_id = e.event_id;
  topic = e.topic;
  event_type = e.event_type;
  payload = e.payload;
  created_ns = created;
  causation_id = e.causation_id;
  correlation_id = e.correlation_id;
  receipt_hash =
      receipt_hash H "PHYSIOLOGY_EVENT" (event_core e created)
        (to_fields (("accepted", bool true) ∷ []));
}

-- `SELECT * FROM events WHERE event_id = ?`
unfoldable pub find_event : String → List JournalEvent → Option JournalEvent
find_event event_id events = find_first (λ e. e.event_id == event_id) events

-- the unique columns `event_id` and `receipt_hash`
unfoldable pub conflicts : JournalEvent → JournalEvent → Bool
conflicts new old = old.event_id == new.event_id || old.receipt_hash == new.receipt_hash

unfoldable pub same_content : Entry → JournalEvent → Bool
same_content e row =
    row.topic == e.topic
    && (row.event_type == e.event_type
        && (json_eq (obj row.payload) (obj e.payload)
            && (opt_str_eq row.causation_id e.causation_id
                && opt_str_eq row.correlation_id e.correlation_id)))

-- what is left of an INSERT that a unique column refused
unfoldable pub existing : Entry → Option JournalEvent → Action Journal JournalEvent
existing e none = raise (integrity_error "UNIQUE constraint failed")
existing e (some row) =
    if same_content e row
    then pure row
    else raise (value_error "event_id collision with different event content")

-- the INSERT, with labels already stripped
unfoldable pub insert_event : Host → ℕ → Entry → Action Journal JournalEvent
insert_event H created e j =
    let row : JournalEvent = new_event H e created (length j.events + 1) in
    if any_of (conflicts row) j.events
    then existing e (find_event e.event_id j.events) j
    else (ok row, record j { events = j.events ++ row ∷ [] })

unfoldable pub append : Host → ℕ → Entry → Action Journal JournalEvent
append H created e = do
  event_id ← lift (validate_label e.event_id "event_id")
  topic ← lift (validate_label e.topic "topic")
  event_type ← lift (validate_label e.event_type "event_type")
  insert_event H created (record e { event_id = event_id; topic = topic; event_type = event_type })

-- `LIMIT ?`
unfoldable pub take : {A : Type 0} → ℕ → List A → List A
take zero xs = []
take (suc n) [] = []
take (suc n) (x ∷ xs) = x ∷ take n xs

unfoldable pub on_topic : Option String → JournalEvent → Bool
on_topic none e = true
on_topic (some topic) e = e.topic == topic

unfoldable pub read : ℕ → ℕ → Option String → Action Journal (List JournalEvent)
read after_seq limit topic = do
  raise_if (ltb limit 1 || ltb 10000 limit) (value_error "limit must be between 1 and 10000")
  gets (λ j. take limit (select (λ e. ltb after_seq e.seq && on_topic topic e) j.events))

-- `0 if row is None else int(row["last_seq"])`
abbrev pub or_zero : Option ℕ → ℕ
or_zero none = 0
or_zero (some n) = n

unfoldable pub consumer_offset : String → Action Journal ℕ
consumer_offset consumer_id = do
  id ← lift (validate_label consumer_id "consumer_id")
  gets (λ j. or_zero (lookup id j.offsets))

unfoldable pub consume : String → ℕ → Option String → Action Journal (List JournalEvent)
consume consumer_id limit topic = do after ← consumer_offset consumer_id; read after limit topic

-- `INSERT … ON CONFLICT(key) DO UPDATE`
unfoldable pub upsert : {A : Type 0} → String → A → List (String × A) → List (String × A)
upsert key v [] = (key, v) ∷ []
upsert key v ((k, w) ∷ rest) =
    let more = upsert key v rest in if k == key then (k, v) ∷ rest else (k, w) ∷ more

unfoldable pub ack : String → ℕ → Action Journal (Unit {0})
ack consumer_id seq = do
  id ← lift (validate_label consumer_id "consumer_id")
  last ← gets (λ j. max_of (λ e. e.seq) j.events)
  raise_if (ltb last seq) (value_error "cannot ack a sequence that does not exist")
  current ← consumer_offset id
  raise_if (ltb seq current) (value_error "consumer offsets are monotonic")
  modify (λ j. record j { offsets = upsert id seq j.offsets })

unfoldable pub set_state : String → Json → Action Journal (Unit {0})
set_state key v = do
  k ← lift (validate_label key "key")
  modify (λ j. record j { runtime_state = upsert k v j.runtime_state })

-- `get_state` by its default
unfoldable pub get_state : String → Json → Action Journal Json
get_state key default = do
  k ← lift (validate_label key "key")
  gets (λ j. elim (lookup k j.runtime_state) [ none ↦ default | some v ↦ v ])
