-- ===== src/Physiology/Journal/History.antt =====
-- Any history of the calls that write to the journal of app/physiology.py.
use gpt_project_bridge.Base.{ℕ, ◌≤◌, String, ◌≡◌, List, [], ◌∷◌, ◌++◌}
use gpt_project_bridge.Base.Dict.{lookup}
use gpt_project_bridge.Json.{Json}
use gpt_project_bridge.Host.{Host}
use gpt_project_bridge.Physiology.Journal.{
  JournalEvent, Journal, Entry, append, ack, set_state, or_zero,
}
use gpt_project_bridge.Physiology.Journal.Growth.{
  IsJournal, Extends, Extends-order, append-Extends, ack-Extends, set_state-Extends,
}

pub data JournalCall : Type 0 where
  append_call : (created_ns : ℕ) → Entry → JournalCall
  ack_call : (consumer_id : String) (seq : ℕ) → JournalCall
  set_state_call : (key : String) → Json → JournalCall

-- the journal after one call, whether it returned or raised
unfoldable pub perform : Host → JournalCall → Journal → Journal
perform H (append_call created_ns e) j = (append H created_ns e j).1
perform H (ack_call consumer_id seq) j = (ack consumer_id seq j).1
perform H (set_state_call key v) j = (set_state key v j).1

unfoldable pub perform_all : Host → List JournalCall → Journal → Journal
unfolding perform
perform_all H [] j = j
perform_all H (c ∷ cs) j = perform_all H cs (perform H c j)

module _ (H : Host) where
  perform-Extends : (c : JournalCall) (j : Journal) → Extends j (perform H c j)
  unfolding perform
  perform-Extends (append_call created_ns e) j = (append-Extends H created_ns e).at j
  perform-Extends (ack_call consumer_id seq) j = (ack-Extends consumer_id seq).at j
  perform-Extends (set_state_call key v) j = (set_state-Extends key v).at j

  perform_all-Extends : (cs : List JournalCall) (j : Journal) → Extends j (perform_all H cs j)
  unfolding perform_all
  perform_all-Extends [] j = Extends-order.refl_at j
  perform_all-Extends (c ∷ cs) j =
      Extends-order.trans_at j (perform H c j) (perform_all H cs (perform H c j))
        (perform-Extends c j) (perform_all-Extends cs (perform H c j))

  -- After any history of calls, failed ones among them, from a journal in order: events were only added
  -- behind the old ones; they are numbered 1, 2, 3, …, no two have one id or one receipt, and no offset
  -- is beyond the last event; and the offset of no consumer went back.
  pub perform_all-IsJournal :
      (cs : List JournalCall) (j : Journal)
      → IsJournal j
      → let j' = perform_all H cs j in
        ((added : List JournalEvent) × (j'.events ≡ j.events ++ added))
        × IsJournal j'
        × ((id : String) → or_zero (lookup id j.offsets) ≤ or_zero (lookup id j'.offsets))
  perform_all-IsJournal cs j w =
      let x = perform_all-Extends cs j in ((x.added, x.events), x.journal w, x.offsets w)
