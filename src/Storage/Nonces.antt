-- ===== src/Storage/Nonces.antt =====
-- `consume_auth_nonce` of app/storage.py.
pub mod Once
use gpt_project_bridge.Base.{
  ℕ, String, Bool, true, false, not, ◌&&◌, List, [], ◌∷◌, ◌++◌, ok, Action, select, any_of, ltb,
  ◌==◌, if◌then◌else◌,
}
use gpt_project_bridge.Storage.Tables.{Db, NonceRow}

-- the primary key of `auth_nonces`
abbrev pub is_nonce : String → String → NonceRow → Bool
is_nonce principal_id nonce row = row.principal_id == principal_id && row.nonce == nonce

-- what `DELETE FROM auth_nonces WHERE expires_at < now` leaves
abbrev pub live_nonces : ℕ → List NonceRow → List NonceRow
live_nonces clock rows = select (λ row. not (ltb row.expires_at clock)) rows

-- The row that is already there makes the INSERT fail; the rollback takes the DELETE back too.
unfoldable pub consume_auth_nonce : ℕ → String → String → ℕ → Action Db Bool
consume_auth_nonce clock principal_id nonce expires_at db =
    let live = live_nonces clock db.nonces in
    if any_of (is_nonce principal_id nonce) live then (ok false, db) else (
      ok true,
      record db {
        nonces =
            live
            ++ record { principal_id = principal_id; nonce = nonce; expires_at = expires_at } ∷ [];
      },
    )
