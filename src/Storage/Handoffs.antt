-- ===== src/Storage/Handoffs.antt =====
-- The handoffs of the model bridge in app/storage.py: a mailbox between the participants of a session.
pub mod Sent
pub mod Mailbox
pub mod Kept
use gpt_project_bridge.Base.{
  ℕ, ◌+◌, String, ◌<>◌, Bool, true, false, not, ◌&&◌, ◌||◌, Option, none, some, List, [], ◌∷◌, ◌++◌,
  Result, ok, err, value_error, lookup_error, permission_error, integrity_error, Action, pure,
  raise, lift, or_raise, raise_if, gets, modify, transaction, ◌>>=◌, ◌>>◌, find_first, any_of,
  select, max_of, update_where, nat_eq, ◌==◌, if◌then◌else◌,
}
use gpt_project_bridge.Base.Text.{take_text}
use gpt_project_bridge.Json.{Fields, str, num, opt_str, to_fields}
use gpt_project_bridge.Host.{Host}
use gpt_project_bridge.ModelBridge.Defs.{Handoff, build_handoff_digest}
use gpt_project_bridge.Storage.Tables.{
  Db, SessionRow, HandoffRow, Participant, Status, pending, acked, Env,
}
use gpt_project_bridge.Storage.Ledger.{Receipt, append_ledger_tx}
use gpt_project_bridge.Storage.Sessions.{find_session}

-- `SELECT … FROM model_handoffs WHERE handoff_id=?`
unfoldable pub find_handoff : String → Db → Option HandoffRow
find_handoff handoff_id db = find_first (λ row. row.handoff_id == handoff_id) db.handoffs

abbrev pub is_enrolled : String → SessionRow → Bool
is_enrolled p session = any_of (λ (q : Participant). q.participant_id == p) session.participants

-- whether the parent is missing or belongs to another session
unfoldable pub is_foreign_parent : String → Option HandoffRow → Bool
is_foreign_parent session_id none = true
is_foreign_parent session_id (some parent) = not (parent.session_id == session_id)

unfoldable pub bad_parent : String → Option String → Db → Bool
unfolding find_handoff is_foreign_parent
bad_parent session_id none db = false
bad_parent session_id (some parent) db = is_foreign_parent session_id (find_handoff parent db)

-- `SELECT COALESCE(MAX(session_seq),0)+1 … WHERE session_id=?`
unfoldable pub next_session_seq : String → List HandoffRow → ℕ
next_session_seq session_id rows =
    max_of (λ row. row.session_seq) (select (λ row. row.session_id == session_id) rows) + 1

-- the keys of `model_handoffs`: `handoff_id`, `(session_id, session_seq)`, `(session_id, payload_hash)`
unfoldable pub clashes : HandoffRow → HandoffRow → Bool
clashes row r =
    r.handoff_id == row.handoff_id
    || (r.session_id == row.session_id && nat_eq r.session_seq row.session_seq)
    || (r.session_id == row.session_id && r.payload_hash == row.payload_hash)

unfoldable pub insert_handoff : HandoffRow → Action Db (Unit {0})
insert_handoff row = do
  taken ← gets (λ db. any_of (clashes row) db.handoffs)
  raise_if taken (integrity_error "UNIQUE constraint failed: model_handoffs")
  modify (λ db. record db { handoffs = db.handoffs ++ row ∷ [] })

unfoldable pub handoff_event : HandoffRow → Fields
handoff_event row = to_fields (
    ("event_type", str "MODEL_BRIDGE_HANDOFF")
    ∷ ("session_id", str row.session_id)
    ∷ ("handoff_id", str row.handoff_id)
    ∷ ("session_seq", num row.session_seq)
    ∷ ("from_participant", str row.from_participant)
    ∷ ("to_participant", str row.to_participant)
    ∷ ("parent_handoff_id", opt_str row.parent_handoff_id)
    ∷ ("payload_hash", str row.payload_hash)
    ∷ ("contract_hash", str row.contract_hash)
    ∷ ("created_at", str row.created_at)
    ∷ [])

-- The arguments of `append_model_handoff`.
pub record Sending : Type 0 where
  pub session_id : String
  pub from_participant : String
  pub to_participant : String
  pub parent_handoff_id : Option String
  pub payload : Fields
  pub expected_contract_hash : String

-- the checks before the sequence number is taken
unfoldable pub check_sending : Sending → Action Db (Unit {0})
check_sending s = do
  found ← gets (find_session s.session_id)
  session ← or_raise found (lookup_error "model bridge session not found")
  raise_if (not (session.contract_hash == s.expected_contract_hash))
      (permission_error "frozen contract hash mismatch")
  raise_if
      (not (is_enrolled s.from_participant session) || not (is_enrolled s.to_participant session))
      (permission_error "handoff participant is not enrolled in session")
  raise_if (s.from_participant == s.to_participant)
      (value_error "cross-model handoff requires distinct participants")
  foreign ← gets (bad_parent s.session_id s.parent_handoff_id)
  raise_if foreign (value_error "parent handoff does not belong to session")

unfoldable pub handoff_row : Env → Sending → ℕ → String → HandoffRow
handoff_row env s sequence payload_hash = record {
  handoff_id = "mh_" <> take_text 32 payload_hash;
  session_id = s.session_id;
  session_seq = sequence;
  from_participant = s.from_participant;
  to_participant = s.to_participant;
  parent_handoff_id = s.parent_handoff_id;
  payload = s.payload;
  payload_hash = payload_hash;
  contract_hash = s.expected_contract_hash;
  status = pending;
  created_at = env.now;
  acked_at = none;
}

-- the document that is hashed
unfoldable pub handoff_of : Sending → ℕ → Handoff
handoff_of s sequence = record {
  session_id = s.session_id;
  sequence = sequence;
  from_participant = s.from_participant;
  to_participant = s.to_participant;
  parent_handoff_id = s.parent_handoff_id;
  payload = s.payload;
  frozen_contract_hash = s.expected_contract_hash;
}

-- the two INSERTs
unfoldable pub place_handoff : Host → Env → HandoffRow → Action Db (HandoffRow × Receipt)
place_handoff H env row = do
  insert_handoff row
  receipt ← append_ledger_tx H env (handoff_event row) "PASS"
  pure (row, receipt)

-- the body of the transaction
unfoldable pub send_handoff : Host → Env → Sending → Action Db (HandoffRow × Receipt)
send_handoff H env s = do
  check_sending s
  sequence ← gets (λ db. next_session_seq s.session_id db.handoffs)
  payload_hash ← lift (build_handoff_digest H (handoff_of s sequence))
  place_handoff H env (handoff_row env s sequence payload_hash)

unfoldable pub append_model_handoff : Host → Env → Sending → Action Db (HandoffRow × Receipt)
append_model_handoff H env s = transaction (send_handoff H env s)
