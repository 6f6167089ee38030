-- ===== src/Tests/Keys.antt =====
-- The key registry at concrete inputs.
use gpt_project_bridge.Base.{◌≡◌, refl, ◌↔◌, inl, ◌≤◌, ◌<◌, true, none, List, [], ◌∷◌, All}
use gpt_project_bridge.Storage.Tables.{Env, empty}
use gpt_project_bridge.Storage.Ledger.{append_ledger_tx, stamp, head, link}
use gpt_project_bridge.Registry.Keys.{
  KeyRecord, check_record, require_text, is_key_id, matches_key, authority_key_id, check_previous,
  check_revocation, effective_at, key_state_reasons,
}
use gpt_project_bridge.Registry.Keys.Effective.{Unrevoked, effective_at_lem}
use gpt_project_bridge.Registry.Table.{KeyRow, RegistryDb, find_key, on_tables, insert_key}
use gpt_project_bridge.Registry.Register.{
  new_row, register_key, register_tx, register_found, check_new, check_rotation, store_key,
  registration_event,
}
use gpt_project_bridge.Registry.Register.Rotation.{Registers, register_key-Registers}
use gpt_project_bridge.Registry.Lineage.{IsKeyring, In}
use gpt_project_bridge.Registry.History.{
  KeyCall, register, IsBuilt, perform_all, perform_all_unique,
}
use gpt_project_bridge.Tests.Ledger.{constant_host, digest, env}

abbrev key : KeyRecord
key = record {
  authority_id = "matverse";
  key_id = "ed25519:0123456789abcdef0123456789abcdef0123456789abcdef0123456789abcdef";
  public_key_hex = digest;
  valid_from = 100;
  valid_until = 200;
  previous_key_id = none;
  algorithm = "Ed25519";
  revoked_at = none;
  revocation_reason = none;
}

abbrev no_keys : RegistryDb
no_keys = record { tables = empty; keys = [] }

effective_at_lem_example :
    ((effective_at key 150 ≡ true) ↔ ((100 ≤ 150) × (150 < 200) × Unrevoked none 150))
    × ((effective_at key 150 ≡ true) ↔ (key_state_reasons key 150 "left" ≡ []))
effective_at_lem_example = effective_at_lem key 150 "left"

register_key-Registers_example :
    Registers constant_host env key "admin" []
      (register_key constant_host env key "admin" no_keys).1.keys
register_key-Registers_example = register_key-Registers constant_host env key "admin" no_keys

abbrev calls : List (Env × KeyCall)
calls = (env, register key "admin") ∷ []

calls-IsBuilt : All (IsBuilt constant_host) calls
unfolding check_record require_text is_key_id matches_key authority_key_id check_previous
    check_revocation
calls-IsBuilt = (refl, tt)

no_keys-IsKeyring : IsKeyring []
no_keys-IsKeyring = record { line = λ a. tt }

abbrev row : KeyRow
row =
    new_row constant_host env key "admin"
      (record { seq = 1; prev_hash = "GENESIS"; event_hash = digest; decision = "PASS" })

row-In : In row (perform_all constant_host calls no_keys).keys
unfolding perform_all register_key require_text register_tx register_found find_key check_new
    check_rotation store_key on_tables append_ledger_tx stamp registration_event insert_key head
    link
row-In = inl refl

key-effective : effective_at key 150 ≡ true
unfolding effective_at
key-effective = refl

perform_all_unique_example : row ≡ row
perform_all_unique_example =
    perform_all_unique constant_host calls no_keys row row 150 calls-IsBuilt no_keys-IsKeyring
      row-In row-In refl key-effective key-effective
