-- ===== src/Storage/Tables.antt =====
-- The tables of app/state_store.py and the environment of one call. A column of JSON text is kept as
-- the value that it encodes, but for the ledger's `event_json`, whose text is hashed.
use gpt_project_bridge.Base.{ℕ, String, Option, List, []}
use gpt_project_bridge.Json.{Fields}

pub record LedgerRow : Type 0 where
  pub seq : ℕ
  pub prev_hash : String
  pub event_hash : String
  pub event_json : String
  pub decision : String

pub record NonceRow : Type 0 where
  pub principal_id : String
  pub nonce : String
  pub expires_at : ℕ

pub record ArtifactRow : Type 0 where
  pub artifact_hash : String
  pub kind : String
  pub version : String
  pub content : Fields
  pub created_by : String
  pub created_at : String

-- a participant of a session: its identifier and its other fields
pub record Participant : Type 0 where
  pub participant_id : String
  pub info : Fields

pub record SessionRow : Type 0 where
  pub session_id : String
  pub protocol_version : String
  pub contract : List (String × String)
  pub contract_hash : String
  pub participants : List Participant
  pub created_by : String
  pub created_at : String

pub data Status : Type 0 where
  pending acked : Status

pub record HandoffRow : Type 0 where
  pub handoff_id : String
  pub session_id : String
  pub session_seq : ℕ
  pub from_participant : String
  pub to_participant : String
  pub parent_handoff_id : Option String
  pub payload : Fields
  pub payload_hash : String
  pub contract_hash : String
  pub status : Status
  pub created_at : String
  pub acked_at : Option String

pub record Db : Type 0 where
  pub ledger : List LedgerRow
  pub nonces : List NonceRow
  pub artifacts : List ArtifactRow
  pub sessions : List SessionRow
  pub handoffs : List HandoffRow

abbrev pub empty : Db
empty = record { ledger = []; nonces = []; artifacts = []; sessions = []; handoffs = [] }

-- What a call reads around it: `_now()`, the variable MATVERSE_BUILD_COMMIT and the clock of SQLite.
pub record Env : Type 0 where
  pub now : String
  pub build_commit : String
  pub clock : ℕ
