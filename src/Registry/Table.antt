-- ===== src/Registry/Table.antt =====
-- The table `federation_authority_keys` beside the tables of app/storage.py, and its queries.
use gpt_project_bridge.Base.{
  String, Bool, false, ◌||◌, Option, none, some, List, [], ◌∷◌, ◌++◌, Result, ok, err,
  integrity_error, ◌&>◌, Action, lift, gets, modify, raise_if, ◌>>=◌, ◌>>◌, find_first, any_of,
  opt_str_eq, ◌==◌,
}
use gpt_project_bridge.Host.{Host}
use gpt_project_bridge.Storage.Tables.{Db}
use gpt_project_bridge.Storage.Ledger.{Receipt}
use gpt_project_bridge.Registry.Keys.{KeyRecord, check_record}

pub record KeyRow : Type 0 where
  pub key : KeyRecord
  pub registration_sha256 : String
  pub registered_by : String
  pub registered_at : String
  pub registration_receipt : Receipt
  pub revoked_by : Option String
  pub revocation_receipt : Option Receipt

pub record RegistryDb : Type 0 where
  pub tables : Db
  pub keys : List KeyRow

-- an action of app/storage.py on the same connection
unfoldable pub on_tables : {A : Type 0} → Action Db A → Action RegistryDb A
on_tables m db = let (r, t) = m db.tables in (r, record db { tables = t })

-- `_row_to_key`, which checks the record again
unfoldable pub row_to_key : Host → KeyRow → Result KeyRecord
row_to_key H row = check_record H row.key &> ok row.key

abbrev pub has_id : String → KeyRow → Bool
has_id key_id row = row.key.key_id == key_id

abbrev pub has_authority : String → KeyRow → Bool
has_authority authority_id row = row.key.authority_id == authority_id

abbrev pub succeeds : String → KeyRow → Bool
succeeds key_id row = opt_str_eq row.key.previous_key_id (some key_id)

-- `SELECT * … WHERE key_id=?`
unfoldable pub find_key : String → List KeyRow → Option KeyRow
find_key key_id rows = find_first (has_id key_id) rows

read_row : Host → Option KeyRow → Result (Option KeyRecord)
read_row H none = ok none
read_row H (some row) = elim (row_to_key H row) [ ok key ↦ ok (some key) | err e ↦ err e ]

unfoldable pub get_key : Host → String → Action RegistryDb (Option KeyRecord)
unfolding read_row
get_key H key_id = do row ← gets (λ db. find_key key_id db.keys); lift (read_row H row)

-- the unique columns of the table: the key's id, its public key, its registration and its predecessor
unfoldable pub clashes : KeyRow → KeyRow → Bool
clashes row r =
    r.key.key_id == row.key.key_id
    || r.key.public_key_hex == row.key.public_key_hex
    || r.registration_sha256 == row.registration_sha256
    || same_predecessor r.key.previous_key_id row.key.previous_key_id
  where
    same_predecessor : Option String → Option String → Bool
    same_predecessor (some a) (some b) = a == b
    same_predecessor _ _ = false

unfoldable pub insert_key : KeyRow → Action RegistryDb (Unit {0})
insert_key row = do
  taken ← gets (λ db. any_of (clashes row) db.keys)
  raise_if taken (integrity_error "UNIQUE constraint failed: federation_authority_keys")
  modify (λ db. record db { keys = db.keys ++ row ∷ [] })
