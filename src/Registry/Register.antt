-- ===== src/Registry/Register.antt =====
-- `register_key` of app/federation_key_registry.py: the first key of an authority, and rotations.
pub mod Rotation
use gpt_project_bridge.Base.{
  ℕ, String, Bool, true, false, not, Option, none, some, List, [], ◌∷◌, ◌++◌, Result, ok, err,
  value_error, Action, pure, lift, raise, gets, modify, raise_if, or_raise, transaction, ◌>>=◌,
  ◌>>◌, any_of, is_none, nat_eq, ◌==◌,
}
use gpt_project_bridge.Json.{Json, Fields, str, num, opt_str, to_fields, json_eq}
use gpt_project_bridge.Host.{Host}
use gpt_project_bridge.Storage.Tables.{Env}
use gpt_project_bridge.Storage.Ledger.{Receipt, append_ledger_tx}
use gpt_project_bridge.Registry.Keys.{
  KeyRecord, require_text, registration_payload, registration_sha256,
}
use gpt_project_bridge.Registry.Table.{
  KeyRow, RegistryDb, on_tables, row_to_key, has_authority, succeeds, find_key, insert_key,
}

-- The answer of a registration.
pub record Registered : Type 0 where
  pub key : KeyRecord
  pub registration : String
  pub receipt : Receipt
  pub idempotent : Bool

unfoldable pub registration_event : Host → Env → KeyRecord → String → Fields
registration_event H env r actor_id = to_fields (
    ("event_type", str "FEDERATION_AUTHORITY_KEY_REGISTERED")
    ∷ ("schema", str "matverse.federation-authority-key.v1")
    ∷ ("authority_id", str r.authority_id)
    ∷ ("key_id", str r.key_id)
    ∷ ("algorithm", str r.algorithm)
    ∷ ("public_key_hex", str r.public_key_hex)
    ∷ ("valid_from", num r.valid_from)
    ∷ ("valid_until", num r.valid_until)
    ∷ ("previous_key_id", opt_str r.previous_key_id)
    ∷ ("registration_sha256", str (registration_sha256 H r))
    ∷ ("registered_by", str actor_id)
    ∷ ("registered_at", str env.now)
    ∷ [])

-- a rotation from the key that the record names
unfoldable pub check_successor : KeyRecord → String → Action RegistryDb (Unit {0})
check_successor r previous_key_id = do
  found ← gets (λ db. find_key previous_key_id db.keys)
  previous ← or_raise found (value_error "previous_key_id is not registered")
  raise_if (not (previous.key.authority_id == r.authority_id))
      (value_error "previous_key_id belongs to a different authority")
  raise_if (not (nat_eq previous.key.valid_until r.valid_from))
      (value_error "rotation must continue exactly at previous valid_until")
  taken ← gets (λ db. any_of (succeeds previous_key_id) db.keys)
  raise_if taken (value_error "previous_key_id already has a rotation successor")

-- by whether the authority has keys, and by the predecessor that the record names
unfoldable pub check_rotation : KeyRecord → Bool → Option String → Action RegistryDb (Unit {0})
check_rotation r false none = pure tt
check_rotation r false (some p) =
    raise (value_error "genesis authority key cannot declare previous_key_id")
check_rotation r true none =
    raise (value_error "non-genesis authority key requires previous_key_id")
check_rotation r true (some p) = check_successor r p

abbrev pub new_row : Host → Env → KeyRecord → String → Receipt → KeyRow
new_row H env r actor_id receipt = record {
  key = r;
  registration_sha256 = registration_sha256 H r;
  registered_by = actor_id;
  registered_at = env.now;
  registration_receipt = receipt;
  revoked_by = none;
  revocation_receipt = none;
}

-- the checks of a new key
unfoldable pub check_new : KeyRecord → Action RegistryDb (Unit {0})
check_new r = do
  known ← gets (λ db. any_of (has_authority r.authority_id) db.keys)
  check_rotation r known r.previous_key_id
  duplicate ← gets (λ db. any_of (λ row. row.key.public_key_hex == r.public_key_hex) db.keys)
  raise_if duplicate (value_error "public key is already registered")

-- the ledger event and the INSERT
unfoldable pub store_key : Host → Env → KeyRecord → String → Action RegistryDb Registered
store_key H env r actor_id = do
  receipt ← on_tables (append_ledger_tx H env (registration_event H env r actor_id) "PASS")
  insert_key (new_row H env r actor_id receipt)
  pure (record {
    key = r;
    registration = registration_sha256 H r;
    receipt = receipt;
    idempotent = false;
  })

unfoldable pub register_found :
    Host → Env → KeyRecord → String → Option KeyRow → Action RegistryDb Registered
register_found H env r actor_id (some row) = do
  stored ← lift (row_to_key H row)
  raise_if (not (json_eq (registration_payload stored) (registration_payload r)))
      (value_error "key_id collision or registration mismatch")
  pure (record {
    key = stored;
    registration = registration_sha256 H stored;
    receipt = row.registration_receipt;
    idempotent = true;
  })
register_found H env r actor_id none = check_new r >> store_key H env r actor_id

unfoldable pub register_tx : Host → Env → KeyRecord → String → Action RegistryDb Registered
register_tx H env r actor_id = do
  existing ← gets (λ db. find_key r.key_id db.keys)
  register_found H env r actor_id existing

unfoldable pub register_key : Host → Env → KeyRecord → String → Action RegistryDb Registered
register_key H env r actor_id = do
  raise_if (not (is_none r.revoked_at)) (value_error "new key registration cannot start revoked")
  lift (require_text actor_id "actor_id")
  transaction (register_tx H env r actor_id)
