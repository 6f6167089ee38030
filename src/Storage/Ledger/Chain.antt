-- ===== src/Storage/Ledger/Chain.antt =====
-- Appending keeps the chain of app/storage.py intact.
use gpt_project_bridge.Base.{
  ℕ, ◌+◌, String, ◌≡◌, ◌↔◌, refl, Result-cases, Option, none, some, List, [], ◌∷◌, ◌++◌, ok, arith,
  length, last?, eq_iff, inl, inr,
}
use gpt_project_bridge.Json.{Fields, obj}
use gpt_project_bridge.Json.Dump.{canonical_json}
use gpt_project_bridge.Host.{Host}
use gpt_project_bridge.Storage.Tables.{Db, LedgerRow, Env}
use gpt_project_bridge.Storage.Ledger.{
  head, stamp, link, Receipt, append_ledger_tx, intact, verify_from, verify_chain,
}

module _ (H : Host) where
  -- Each row names the hash of the row before it and carries the digest of its own content.
  abbrev pub Linked : String → List LedgerRow → Type 0
  Linked prev [] = Unit
  Linked prev (row ∷ rows) =
      (row.prev_hash ≡ prev)
      × (row.event_hash ≡ link H prev row.event_json row.decision)
      × Linked row.event_hash rows

  -- the hash of the last row, or of what stands in front of the first
  abbrev pub tail_hash : String → List LedgerRow → String
  tail_hash prev [] = prev
  tail_hash prev (row ∷ rows) = tail_hash row.event_hash rows

  abbrev fallback : String → Option LedgerRow → String
  fallback prev none = prev
  fallback prev (some row) = row.event_hash

  tail_hash-last? :
      (prev : String) (rows : List LedgerRow) → tail_hash prev rows ≡ fallback prev (last? rows)
  tail_hash-last? prev [] = refl
  tail_hash-last? prev (row ∷ rows) = ground (arith, tail_hash-last? row.event_hash rows)

  pub tail_hash-head : (rows : List LedgerRow) → tail_hash "GENESIS" rows ≡ head rows
  unfolding head
  tail_hash-head rows = ground (arith, tail_hash-last? "GENESIS" rows)

  pub verify_from-Linked :
      (n : ℕ) (prev : String) (rows : List LedgerRow) {m : ℕ} {h : String}
      → verify_from H n prev rows ≡ intact m h
      → Linked prev rows × (m ≡ n + length rows) × (h ≡ tail_hash prev rows)
  unfolding verify_from
  verify_from-Linked n prev [] e = ground arith
  verify_from-Linked n prev (row ∷ rows) {m} {h} e = ground (
    arith,
    verify_from-Linked (n + 1) row.event_hash rows {m = m} {h = h},
    eq_iff row.prev_hash prev,
    eq_iff row.event_hash (link H prev row.event_json row.decision),
  )

  pub Linked-verify_from :
      (n : ℕ) (prev : String) (rows : List LedgerRow)
      → Linked prev rows
      → verify_from H n prev rows ≡ intact (n + length rows) (tail_hash prev rows)
  unfolding verify_from
  Linked-verify_from n prev [] l = ground arith
  Linked-verify_from n prev (row ∷ rows) l = ground (
    arith,
    Linked-verify_from (n + 1) row.event_hash rows,
    eq_iff row.prev_hash prev,
    eq_iff row.event_hash (link H prev row.event_json row.decision),
  )

  pub Linked-append :
      (prev : String) (rows : List LedgerRow) (row : LedgerRow)
      → Linked prev rows
      → row.prev_hash ≡ tail_hash prev rows
      → row.event_hash ≡ link H (tail_hash prev rows) row.event_json row.decision
      → Linked prev (rows ++ row ∷ [])
  Linked-append prev [] row l p q = (p, q, tt)
  Linked-append prev (r ∷ rows) row l p q = (l.0, l.1, Linked-append r.event_hash rows row l.2 p q)

  -- The rows of the ledger are linked from the first one on.
  abbrev pub IsChained : Db → Type 0
  IsChained db = Linked "GENESIS" db.ledger

  -- The verifier accepts a ledger exactly when its rows are linked, and then it reports their number
  -- and the hash of the last row.
  pub verify_chain_iff :
      (db : Db) → (verify_chain H db ≡ intact (length db.ledger) (head db.ledger)) ↔ IsChained db
  unfolding verify_chain
  verify_chain_iff db = (
    λ e. (verify_from-Linked 0 "GENESIS" db.ledger e).0,
    λ l. rw (Linked-verify_from 0 "GENESIS" db.ledger l) (ground (arith, tail_hash-head db.ledger)),
  )

  -- What an append that succeeded has done.
  pub append_ledger_tx_lem :
      (env : Env) (event : Fields) (decision : String) (db : Db) {receipt : Receipt} {db' : Db}
      → append_ledger_tx H env event decision db ≡ (ok receipt, db')
      → (stored : Fields) × (stamp env event ≡ ok stored)
        × (receipt.seq ≡ length db.ledger + 1)
        × (receipt.prev_hash ≡ head db.ledger)
        × (receipt.event_hash ≡ link H (head db.ledger) (canonical_json (obj stored)) decision)
        × (db' ≡ record db {
          ledger =
              db.ledger
              ++ record {
                seq = receipt.seq;
                prev_hash = receipt.prev_hash;
                event_hash = receipt.event_hash;
                event_json = canonical_json (obj stored);
                decision = decision;
              }
                ∷ [];
        })
  unfolding append_ledger_tx
  append_ledger_tx_lem env event decision db {receipt} {db'} e =
      elim (Result-cases (stamp env event)) [
        | inl (stored, p) ↦ (stored, p, ground arith, ground arith, ground arith, ground arith)
        | inr (x, p) ↦ absurd (ground arith)
      ]
