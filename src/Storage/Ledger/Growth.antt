-- ===== src/Storage/Ledger/Growth.antt =====
-- Every action of app/storage.py only appends to the ledger, and keeps its chain intact.
use mathlib.Core.List.{append-nil, append_assoc}
use gpt_project_bridge.Base.{
  String, ◌≡◌, refl, sym, ap, ◌∙◌, List, [], ◌∷◌, ◌++◌, ok, err, Exn, Result-cases, inl, inr, arith,
  modify,
}
use gpt_project_bridge.Base.Steps.{IsPreorder, Steps}
use gpt_project_bridge.Json.{Fields, obj}
use gpt_project_bridge.Json.Dump.{canonical_json}
use gpt_project_bridge.Host.{Host}
use gpt_project_bridge.Storage.Tables.{Db, LedgerRow, Env}
use gpt_project_bridge.Storage.Ledger.{Receipt, stamp, append_ledger_tx}
use gpt_project_bridge.Storage.Ledger.Chain.{
  IsChained, tail_hash-head, Linked-append, append_ledger_tx_lem,
}

-- The ledger afterwards is the one before with rows behind it, and is linked if that was.
pub record Grows (H : Host) (db db' : Db) : Type 0 where
  pub added : List LedgerRow
  pub ledger : db'.ledger ≡ db.ledger ++ added
  pub chained : IsChained H db → IsChained H db'

module _ (H : Host) where
  pub Grows-same : (db db' : Db) → db'.ledger ≡ db.ledger → Grows H db db'
  Grows-same db db' e = record {
    added = [];
    ledger = e ∙ sym (append-nil db.ledger);
    chained = λ c. rw e c;
  }

  pub Grows-order : IsPreorder (Grows H)
  Grows-order = record {
    refl_at = λ db. Grows-same db db refl;
    trans_at = λ s t u g h. record {
      added = g.added ++ h.added;
      ledger = h.ledger ∙ ap (λ l. l ++ h.added) g.ledger ∙ append_assoc s.ledger g.added h.added;
      chained = λ c. h.chained (g.chained c);
    };
  }

  pub Grows-modify :
      (f : Db → Db) → ((db : Db) → (f db).ledger ≡ db.ledger) → Steps (Grows H) (modify f)
  Grows-modify f same = record { at = λ db. Grows-same db (f db) (same db) }

  append_err :
      (env : Env) (event : Fields) (decision : String) (db : Db) (e : Exn)
      → (append_ledger_tx H env event decision db).0 ≡ err e
      → (append_ledger_tx H env event decision db).1 ≡ db
  unfolding append_ledger_tx
  append_err env event decision db e h = elim (Result-cases (stamp env event)) [
    | inl (stored, p) ↦ ground arith
    | inr (x, p) ↦ ground arith
  ]

  append_ok :
      (env : Env) (event : Fields) (decision : String) (db : Db) {receipt : Receipt}
      → (append_ledger_tx H env event decision db).0 ≡ ok receipt
      → Grows H db (append_ledger_tx H env event decision db).1
  append_ok env event decision db {receipt} h =
      let db' : Db = (append_ledger_tx H env event decision db).1 in
      let (stored, _, _, prev, digest, whole) =
        append_ledger_tx_lem H env event decision db {receipt = receipt} {db' = db'}
          (λ i. (h i, db')) in
      let row : LedgerRow = record {
        seq = receipt.seq;
        prev_hash = receipt.prev_hash;
        event_hash = receipt.event_hash;
        event_json = canonical_json (obj stored);
        decision = decision;
      } in
      record {
        added = row ∷ [];
        ledger = ap (λ d. d.ledger) whole;
        chained = λ c. rw whole (
            Linked-append H "GENESIS" db.ledger row c (prev ∙ sym (tail_hash-head H db.ledger))
              (rw tail_hash-head digest));
      }

  pub append_ledger_tx-Grows :
      (env : Env) (event : Fields) (decision : String)
      → Steps (Grows H) (append_ledger_tx H env event decision)
  append_ledger_tx-Grows env event decision = record {
    at = λ db. elim (Result-cases (append_ledger_tx H env event decision db).0) [
      | inl (receipt, h) ↦ append_ok env event decision db h
      | inr (e, h) ↦ rw (append_err env event decision db e h) (Grows-order.refl_at db)
    ];
  }
