-- ===== src/Storage/Mailbox.antt =====
-- Reading and acknowledging handoffs in app/storage.py.
use gpt_project_bridge.Base.{
  String, Bool, not, ◌&&◌, Option, none, some, List, [], ◌∷◌, permission_error, lookup_error,
  Action, pure, or_raise, raise_if, gets, modify, transaction, ◌>>=◌, ◌>>◌, select, sort_by,
  update_where, ◌==◌,
}
use gpt_project_bridge.Json.{Fields, str, to_fields}
use gpt_project_bridge.Host.{Host}
use gpt_project_bridge.Storage.Tables.{Db, HandoffRow, Status, pending, acked, Env}
use gpt_project_bridge.Storage.Ledger.{Receipt, append_ledger_tx}
use gpt_project_bridge.Storage.Sessions.{get_model_session}
use gpt_project_bridge.Storage.Handoffs.{find_handoff, is_enrolled}

abbrev pub is_pending : Status → Bool
is_pending pending = Bool.true
is_pending acked = Bool.false

unfoldable pub list_model_inbox : String → String → Action Db (List HandoffRow)
unfolding get_model_session sort_by
list_model_inbox session_id participant_id = do
  found ← get_model_session session_id
  session ← or_raise found (lookup_error "model bridge session not found")
  raise_if (not (is_enrolled participant_id session))
      (permission_error "participant is not enrolled in session")
  gets (λ db.
      sort_by (λ row. row.session_seq)
        (select
          (λ row.
            row.session_id == session_id
            && row.to_participant == participant_id
            && is_pending row.status)
          db.handoffs))

unfoldable pub ack_event : HandoffRow → String → String → Fields
ack_event row participant_id acked_at = to_fields (
    ("event_type", str "MODEL_BRIDGE_HANDOFF_ACK")
    ∷ ("session_id", str row.session_id)
    ∷ ("handoff_id", str row.handoff_id)
    ∷ ("participant_id", str participant_id)
    ∷ ("acked_at", str acked_at)
    ∷ [])

-- The answer of an acknowledgement: its time, and a receipt if it was the first.
pub record Acknowledged : Type 0 where
  pub acked_at : Option String
  pub receipt : Option Receipt

-- `UPDATE model_handoffs SET status='ACKED' … WHERE handoff_id=? AND status='PENDING'`
unfoldable pub set_acked : String → String → List HandoffRow → List HandoffRow
set_acked handoff_id acked_at rows =
    update_where (λ row. row.handoff_id == handoff_id && is_pending row.status)
      (λ row. record row { status = acked; acked_at = some acked_at }) rows

unfoldable pub acknowledge_row : Host → Env → HandoffRow → String → Status → Action Db Acknowledged
acknowledge_row H env row participant_id acked =
    pure (record { acked_at = row.acked_at; receipt = none })
acknowledge_row H env row participant_id pending = do
  modify (λ db. record db { handoffs = set_acked row.handoff_id env.now db.handoffs })
  receipt ← append_ledger_tx H env (ack_event row participant_id env.now) "PASS"
  pure (record { acked_at = some env.now; receipt = some receipt })

unfoldable pub acknowledge_model_handoff : Host → Env → String → String → Action Db Acknowledged
acknowledge_model_handoff H env handoff_id participant_id = transaction (do
  found ← gets (find_handoff handoff_id)
  row ← or_raise found (lookup_error "model handoff not found")
  raise_if (not (row.to_participant == participant_id))
      (permission_error "only the target participant can acknowledge this handoff")
  acknowledge_row H env row participant_id row.status)
