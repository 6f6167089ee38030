-- ===== src/Storage/Calls.antt =====
-- The calls that write to the tables of app/storage.py, as one type, and a history of them.
pub mod Growth
pub mod Mail
use gpt_project_bridge.Base.{ℕ, String, Option, List, [], ◌∷◌}
use gpt_project_bridge.Json.{Fields}
use gpt_project_bridge.Host.{Host}
use gpt_project_bridge.Storage.Tables.{Db, SessionRow, Env}
use gpt_project_bridge.Storage.Ledger.{append_event}
use gpt_project_bridge.Storage.Nonces.{consume_auth_nonce}
use gpt_project_bridge.Storage.Artifacts.{register_contract_artifact}
use gpt_project_bridge.Storage.Sessions.{create_model_session}
use gpt_project_bridge.Storage.Handoffs.{Sending, append_model_handoff}
use gpt_project_bridge.Storage.Mailbox.{acknowledge_model_handoff}

pub data Call : Type 0 where
  consume_nonce : (principal_id nonce : String) (expires_at : ℕ) → Call
  event : (event : Fields) (decision : String) → Call
  artifact : (kind version : String) (content : Fields) (created_by : String) → Call
  session : SessionRow → Call
  handoff : Sending → Call
  ack : (handoff_id participant_id : String) → Call

-- the tables after one call, whether it returned or raised
unfoldable pub perform : Host → Env → Call → Db → Db
perform H env (consume_nonce p n e) db = (consume_auth_nonce env.clock p n e db).1
perform H env (event e d) db = (append_event H env e d db).1
perform H env (artifact k v c b) db = (register_contract_artifact H env k v c b db).1
perform H env (session row) db = (create_model_session H env row db).1
perform H env (handoff s) db = (append_model_handoff H env s db).1
perform H env (ack h p) db = (acknowledge_model_handoff H env h p db).1

-- the tables after a history of calls, each with what it reads of its environment
unfoldable pub perform_all : Host → List (Env × Call) → Db → Db
unfolding perform
perform_all H [] db = db
perform_all H ((env, call) ∷ rest) db = perform_all H rest (perform H env call db)
