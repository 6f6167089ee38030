-- ===== src/Storage/Sessions.antt =====
-- The sessions of the model bridge in app/storage.py.
use gpt_project_bridge.Base.{
  String, Option, [], ◌∷◌, ◌++◌, map, integrity_error, Action, pure, lift, raise_if, gets, modify,
  transaction, ◌>>=◌, ◌>>◌, find_first, any_of, ◌==◌,
}
use gpt_project_bridge.Json.{Fields, str, list, to_fields}
use gpt_project_bridge.Host.{Host}
use gpt_project_bridge.Storage.Tables.{Db, SessionRow, Participant, Env}
use gpt_project_bridge.Storage.Ledger.{Receipt, append_ledger_tx}
use gpt_project_bridge.Storage.Artifacts.{validate_contract_registry}

-- `SELECT * FROM model_sessions WHERE session_id=?`
unfoldable pub find_session : String → Db → Option SessionRow
find_session session_id db = find_first (λ row. row.session_id == session_id) db.sessions

-- `get_model_session`
unfoldable pub get_model_session : String → Action Db (Option SessionRow)
unfolding find_session
get_model_session session_id = gets (find_session session_id)

unfoldable pub session_event : SessionRow → Fields
session_event row = to_fields (
    ("event_type", str "MODEL_BRIDGE_SESSION_CREATED")
    ∷ ("session_id", str row.session_id)
    ∷ ("protocol_version", str row.protocol_version)
    ∷ ("contract_hash", str row.contract_hash)
    ∷ ("participants", list (map (λ (p : Participant). str p.participant_id) row.participants))
    ∷ ("created_by", str row.created_by)
    ∷ ("created_at", str row.created_at)
    ∷ [])

-- `INSERT INTO model_sessions`, whose key is `session_id`
unfoldable pub insert_session : SessionRow → Action Db (Unit {0})
insert_session row = do
  taken ← gets (λ db. any_of (λ r. r.session_id == row.session_id) db.sessions)
  raise_if taken (integrity_error "UNIQUE constraint failed: model_sessions.session_id")
  modify (λ db. record db { sessions = db.sessions ++ row ∷ [] })

-- `created_at` of the row is the time of the call.
unfoldable pub create_model_session : Host → Env → SessionRow → Action Db (SessionRow × Receipt)
create_model_session H env args =
    let row : SessionRow = record args { created_at = env.now } in
    do
      checked ← gets (validate_contract_registry row.contract)
      lift checked
      transaction (do
        insert_session row
        receipt ← append_ledger_tx H env (session_event row) "PASS"
        pure (row, receipt))
