-- ===== src/Registry/Revoke.antt =====
-- `revoke_key` of app/federation_key_registry.py.
use gpt_project_bridge.Base.{
  ℕ, String, Bool, true, false, not, ◌&&◌, Option, none, some, [], ◌∷◌, value_error, lookup_error,
  permission_error, assertion_error, Action, pure, lift, raise, gets, modify, raise_if, or_raise,
  transaction, ◌>>=◌, ◌>>◌, update_where, opt_str_eq, leb, ltb, nat_eq, ◌==◌, if◌then◌else◌,
}
use gpt_project_bridge.Json.{Fields, str, num, to_fields}
use gpt_project_bridge.Host.{Host}
use gpt_project_bridge.Storage.Tables.{Env}
use gpt_project_bridge.Storage.Ledger.{Receipt, append_ledger_tx}
use gpt_project_bridge.Registry.Keys.{KeyRecord, require_text}
use gpt_project_bridge.Registry.Table.{
  KeyRow, RegistryDb, on_tables, row_to_key, has_id, find_key, get_key,
}

-- The arguments of `revoke_key`.
pub record Revocation : Type 0 where
  pub authority_id : String
  pub key_id : String
  pub effective_at : ℕ
  pub reason : String
  pub actor_id : String

-- The answer; a repeated revocation gives the receipt of the first.
pub record Revoked : Type 0 where
  pub key : KeyRecord
  pub receipt : Option Receipt
  pub idempotent : Bool

unfoldable pub revocation_event : Env → Revocation → KeyRow → Fields
revocation_event env v row = to_fields (
    ("event_type", str "FEDERATION_AUTHORITY_KEY_REVOKED")
    ∷ ("authority_id", str v.authority_id)
    ∷ ("key_id", str v.key_id)
    ∷ ("registration_sha256", str row.registration_sha256)
    ∷ ("effective_at", num v.effective_at)
    ∷ ("reason", str v.reason)
    ∷ ("revoked_by", str v.actor_id)
    ∷ ("revoked_at_recorded", str env.now)
    ∷ [])

-- the columns that the UPDATE writes
unfoldable pub revoke_row : Revocation → Receipt → KeyRow → KeyRow
revoke_row v receipt row = record row {
  key = record row.key { revoked_at = some v.effective_at; revocation_reason = some v.reason };
  revoked_by = some v.actor_id;
  revocation_receipt = some receipt;
}

-- `none` where the key was revoked before, in the same way; a receipt where it is revoked now
unfoldable pub revoke_state :
    Host → Env → Revocation → KeyRow → Option ℕ → Action RegistryDb (Option Receipt)
revoke_state H env v row (some t) =
    if nat_eq t v.effective_at && opt_str_eq row.key.revocation_reason (some v.reason)
    then pure none
    else raise (value_error "key is already revoked with different revocation state")
revoke_state H env v row none = do
  receipt ← on_tables (append_ledger_tx H env (revocation_event env v row) "PASS")
  modify (λ db. record db { keys = update_where (has_id v.key_id) (revoke_row v receipt) db.keys })
  pure (some receipt)

unfoldable pub revoke_tx : Host → Env → Revocation → Action RegistryDb (KeyRow × Option Receipt)
revoke_tx H env v = do
  found ← gets (λ db. find_key v.key_id db.keys)
  row ← or_raise found (lookup_error "authority key not found")
  raise_if (not (row.key.authority_id == v.authority_id))
      (permission_error "key does not belong to authority")
  raise_if (not (leb row.key.valid_from v.effective_at && ltb v.effective_at row.key.valid_until))
      (value_error "revocation effective_at must fall inside key validity window")
  receipt ← revoke_state H env v row row.key.revoked_at
  pure (row, receipt)

-- the answer: what was stored before, or the updated row, read after the commit
unfoldable pub revoke_answer :
    Host → Revocation → KeyRow → Option Receipt → Action RegistryDb Revoked
revoke_answer H v row none = do
  key ← lift (row_to_key H row)
  pure (record { key = key; receipt = row.revocation_receipt; idempotent = true })
revoke_answer H v row (some receipt) = do
  updated ← get_key H v.key_id
  key ← or_raise updated (assertion_error "")
  pure (record { key = key; receipt = some receipt; idempotent = false })

unfoldable pub revoke_key : Host → Env → Revocation → Action RegistryDb Revoked
revoke_key H env v = do
  lift (require_text v.authority_id "authority_id")
  lift (require_text v.reason "reason")
  lift (require_text v.actor_id "actor_id")
  done ← transaction (revoke_tx H env v)
  revoke_answer H v done.0 done.1
