-- ===== src/Storage/Ledger.antt =====
-- The ledger of app/storage.py: appending one hash-chained event, verifying the chain and replaying.
pub mod Chain
pub mod Tamper
pub mod Growth
pub mod Replay
use gpt_project_bridge.Base.{
  ℕ, ◌+◌, String, ◌<>◌, Bool, true, false, not, ◌&&◌, ◌||◌, Option, none, some, List, [], ◌∷◌, ◌++◌,
  Result, ok, err, Exn, value_error, integrity_error, Action, pure, raise, lift, gets, modify,
  raise_if, transaction, ◌>>=◌, ◌>>◌, ◌==◌, if◌then◌else◌, nat_eq, count, last?, any_of, length,
}
use gpt_project_bridge.Base.Text.{all_hex, lower}
use gpt_project_bridge.Json.{Json, null, str, obj, Fields, get, put}
use gpt_project_bridge.Json.Dump.{canonical_json}
use gpt_project_bridge.Host.{Host}
use gpt_project_bridge.Storage.Tables.{Db, LedgerRow, Env}

-- `^(?:[0-9a-f]{40}|[0-9a-f]{64})$`
unfoldable pub is_git_object_id : String → Bool
unfolding all_hex
is_git_object_id s = (nat_eq (count s) 40 || nat_eq (count s) 64) && all_hex s

-- `event_to_store.setdefault("ledger_at", now)`
set_ledger_at : String → Fields → Fields
unfolding get put
set_ledger_at now event = elim (get "ledger_at" event) [
  | none ↦ put "ledger_at" (str now) event
  | some _ ↦ event
]

bad_commit : Exn
bad_commit = value_error "event source_commit must be a 40- or 64-character Git object id"

-- what the event brings as its source commit, `None` or a missing key among it
set_source_commit : String → Option Json → Fields → Result Fields
unfolding is_git_object_id lower put bad_commit
set_source_commit configured (some (str supplied)) event =
    if is_git_object_id (lower supplied)
    then ok (put "source_commit" (str (lower supplied)) event)
    else err bad_commit
set_source_commit configured none event =
    if is_git_object_id (lower configured)
    then ok (put "source_commit" (str (lower configured)) event)
    else ok event
set_source_commit configured (some null) event =
    if is_git_object_id (lower configured)
    then ok (put "source_commit" (str (lower configured)) event)
    else ok event
set_source_commit configured (some _) event = err bad_commit

-- the event as it is stored
unfoldable pub stamp : Env → Fields → Result Fields
unfolding set_ledger_at set_source_commit get
stamp env event =
    let stored = set_ledger_at env.now event in
    set_source_commit env.build_commit (get "source_commit" stored) stored

pub record Receipt : Type 0 where
  pub seq : ℕ
  pub prev_hash : String
  pub event_hash : String
  pub decision : String

abbrev pub hash_of : Option LedgerRow → String
hash_of none = "GENESIS"
hash_of (some row) = row.event_hash

-- `last["event_hash"] if last else "GENESIS"`
unfoldable pub head : List LedgerRow → String
head rows = hash_of (last? rows)

-- the key of AUTOINCREMENT, in a table from which nothing is deleted
abbrev pub next_seq : List LedgerRow → ℕ
next_seq rows = length rows + 1

-- `INSERT INTO ledger`, whose `event_hash` is UNIQUE
insert_row : LedgerRow → Action Db (Unit {0})
insert_row row = do
  taken ← gets (λ db. any_of (λ r. r.event_hash == row.event_hash) db.ledger)
  raise_if taken (integrity_error "UNIQUE constraint failed: ledger.event_hash")
  modify (λ db. record db { ledger = db.ledger ++ row ∷ [] })

module _ (H : Host) where
  -- the digest of one row
  unfoldable pub link : String → String → String → String
  link prev payload decision = H.sha256 (prev <> payload <> decision)

  unfoldable pub append_ledger_tx : Env → Fields → String → Action Db Receipt
  unfolding insert_row
  append_ledger_tx env event decision = do
    stored ← lift (stamp env event)
    rows ← gets (λ db. db.ledger)
    let prev_hash = head rows
    let payload = canonical_json (obj stored)
    let event_hash = link prev_hash payload decision
    insert_row (record {
      seq = next_seq rows;
      prev_hash = prev_hash;
      event_hash = event_hash;
      event_json = payload;
      decision = decision;
    })
    pure (record {
      seq = next_seq rows;
      prev_hash = prev_hash;
      event_hash = event_hash;
      decision = decision;
    })

  unfoldable pub append_event : Env → Fields → String → Action Db Receipt
  append_event env event decision = transaction (append_ledger_tx env event decision)

-- The answer of `verify_chain`.
pub data Verdict : Type 0 where
  intact : ℕ → String → Verdict
  broken : ℕ → Verdict

module _ (H : Host) where
  -- the loop over the rows, with the number of rows already seen and the hash of the last of them
  unfoldable pub verify_from : ℕ → String → List LedgerRow → Verdict
  verify_from n prev [] = intact n prev
  verify_from n prev (row ∷ rows) =
      let rest = verify_from (n + 1) row.event_hash rows in
      if not (row.prev_hash == prev)
        || not (row.event_hash == link H prev row.event_json row.decision)
      then broken row.seq
      else rest

  unfoldable pub verify_chain : Db → Verdict
  unfolding verify_from
  verify_chain db = verify_from 0 "GENESIS" db.ledger

pub record Replayed : Type 0 where
  pub accepted : ℕ
  pub blocked : ℕ
  pub held : ℕ
  pub last_event : Option Json

module _ (H : Host) where
  replay_row : LedgerRow → Json → Replayed → Replayed
  replay_row row event s =
      if row.decision == "PASS"
      then record s { accepted = s.accepted + 1; last_event = some event }
      else if row.decision == "BLOCK"
      then record s { blocked = s.blocked + 1 }
      else record s { held = s.held + 1 }

  replay_rows : List LedgerRow → Replayed → Result Replayed
  unfolding replay_row
  replay_rows [] s = ok s
  replay_rows (row ∷ rows) s = elim (H.json_loads row.event_json) [
    | none ↦ err (value_error "JSONDecodeError")
    | some event ↦ replay_rows rows (replay_row row event s)
  ]

  unfoldable pub replay : Db → Result Replayed
  unfolding replay_rows
  replay db =
      replay_rows db.ledger (record { accepted = 0; blocked = 0; held = 0; last_event = none })
