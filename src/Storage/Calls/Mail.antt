-- ===== src/Storage/Calls/Mail.antt =====
-- Whatever is called, the handoffs of app/storage.py keep their invariant.
use gpt_project_bridge.Base.{
  ℕ, String, ◌≡◌, refl, ap, Option, none, some, List, [], ◌∷◌, ◌++◌, Exn, err, Result-cases,
  Bool-cases, inl, inr, modify, any_of,
}
use gpt_project_bridge.Base.Steps.{
  IsPreorder, Steps, Steps-pure, Steps-raise, Steps-lift, Steps-gets, Steps-or_raise,
  Steps-transaction, Steps-raise_if, Steps-bind,
}
use gpt_project_bridge.Base.Inversion.{transaction-err}
use gpt_project_bridge.Json.{Fields}
use gpt_project_bridge.Host.{Host}
use gpt_project_bridge.Storage.Tables.{
  Db, ArtifactRow, SessionRow, HandoffRow, Status, pending, acked, Env,
}
use gpt_project_bridge.Storage.Ledger.{append_ledger_tx, append_event}
use gpt_project_bridge.Storage.Nonces.{consume_auth_nonce, is_nonce, live_nonces}
use gpt_project_bridge.Storage.Artifacts.{register_found, register_contract_artifact}
use gpt_project_bridge.Storage.Sessions.{insert_session, create_model_session}
use gpt_project_bridge.Storage.Handoffs.{Sending, send_handoff, append_model_handoff}
use gpt_project_bridge.Storage.Handoffs.Sent.{ledger_only, append_model_handoff-IsSent}
use gpt_project_bridge.Storage.Handoffs.Mailbox.{
  IsMailbox, Later-same, Later-session, IsMailbox-Later,
}
use gpt_project_bridge.Storage.Handoffs.Kept.{IsMailbox-sent, IsMailbox-acked}
use gpt_project_bridge.Storage.Mailbox.{set_acked, acknowledge_row, acknowledge_model_handoff}
use gpt_project_bridge.Storage.Calls.{
  Call, consume_nonce, event, artifact, session, handoff, ack, perform, perform_all,
}

-- what an action does to the invariant
record Keeps (db db' : Db) : Type 0 where
  apply : IsMailbox db → IsMailbox db'

Keeps-order : IsPreorder Keeps
Keeps-order = record {
  refl_at = λ db. record { apply = λ m. m };
  trans_at = λ s t u f g. record { apply = λ m. g.apply (f.apply m) };
}

Keeps-same : (db db' : Db) → db'.sessions ≡ db.sessions → db'.handoffs ≡ db.handoffs → Keeps db db'
Keeps-same db db' s h = record { apply = IsMailbox-Later db db' (Later-same db db' s h) h }

add_artifact :
    (row : ArtifactRow)
    → Steps Keeps (modify (λ db. record db { artifacts = db.artifacts ++ row ∷ [] }))
add_artifact row = record { at = λ db. Keeps-same db _ refl refl }

add_session :
    (row : SessionRow)
    → Steps Keeps (modify (λ db. record db { sessions = db.sessions ++ row ∷ [] }))
add_session row = record {
  at = λ db. record {
    apply =
        IsMailbox-Later db (record db { sessions = db.sessions ++ row ∷ [] })
          (Later-session db _ row refl refl) refl;
  };
}

mark_acked :
    (i t : String) → Steps Keeps (modify (λ db. record db { handoffs = set_acked i t db.handoffs }))
mark_acked i t = record { at = λ db. record { apply = IsMailbox-acked i t db } }

append_ledger_tx-Keeps :
    (H : Host) (env : Env) (e : Fields) (d : String) → Steps Keeps (append_ledger_tx H env e d)
append_ledger_tx-Keeps H env e d = record {
  at = λ db.
      let same = ledger_only H env e d db in
      Keeps-same db _ (ap (λ (x : Db). x.sessions) same) (ap (λ (x : Db). x.handoffs) same);
}

ruleset keeping = (
  Steps-pure, Steps-raise, Steps-lift, Steps-gets, Steps-or_raise, Steps-transaction,
  Steps-raise_if, Steps-bind, Keeps-order, append_ledger_tx-Keeps, add_artifact, add_session,
  mark_acked,
)

consume-Keeps : (clock : ℕ) (p n : String) (e : ℕ) → Steps Keeps (consume_auth_nonce clock p n e)
unfolding consume_auth_nonce
consume-Keeps clock p n e = record {
  at = λ db. elim (Bool-cases (any_of (is_nonce p n) (live_nonces clock db.nonces))) [
    | inl t ↦ Keeps-same db _ (rw t) (rw t)
    | inr f ↦ Keeps-same db _ (rw f) (rw f)
  ];
}

module _ (H : Host) where
  append_event-Keeps : (env : Env) (e : Fields) (d : String) → Steps Keeps (append_event H env e d)
  unfolding append_event
  append_event-Keeps env e d = search keeping

  register_found-Keeps :
      (env : Env) (row : ArtifactRow) (o : Option ArtifactRow)
      → Steps Keeps (register_found H env row o)
  unfolding register_found
  register_found-Keeps env row none = search keeping depth 7
  register_found-Keeps env row (some r) = search keeping

  register-Keeps :
      (env : Env) (k v : String) (c : Fields) (b : String)
      → Steps Keeps (register_contract_artifact H env k v c b)
  unfolding register_contract_artifact
  register-Keeps env k v c b = search (keeping, register_found-Keeps) depth 7

  insert_session-Keeps : (row : SessionRow) → Steps Keeps (insert_session row)
  unfolding insert_session
  insert_session-Keeps row = search keeping

  create-Keeps : (env : Env) (row : SessionRow) → Steps Keeps (create_model_session H env row)
  unfolding create_model_session
  create-Keeps env row = search (keeping, insert_session-Keeps) depth 7

  -- a handoff that raised is undone
  undone :
      (env : Env) (s : Sending) (db : Db) {e : Exn}
      → (append_model_handoff H env s db).0 ≡ err e
      → (append_model_handoff H env s db).1 ≡ db
  unfolding append_model_handoff
  undone env s db p = transaction-err (send_handoff H env s) db p

  handoff-Keeps : (env : Env) (s : Sending) → Steps Keeps (append_model_handoff H env s)
  handoff-Keeps env s = record {
    at = λ db. elim (Result-cases (append_model_handoff H env s db).0) [
      | inl ((row, receipt), p) ↦ record {
        apply = IsMailbox-sent H env s db row (append_model_handoff H env s db).1 (
            append_model_handoff-IsSent H env s db {receipt = receipt}
              (λ i. (p i, (append_model_handoff H env s db).1)));
      }
      | inr (e, p) ↦ rw (undone env s db p) (Keeps-order.refl_at db)
    ];
  }

  acknowledge_row-Keeps :
      (env : Env) (row : HandoffRow) (p : String) (st : Status)
      → Steps Keeps (acknowledge_row H env row p st)
  unfolding acknowledge_row
  acknowledge_row-Keeps env row p pending = search keeping
  acknowledge_row-Keeps env row p acked = search keeping

  ack-Keeps : (env : Env) (h p : String) → Steps Keeps (acknowledge_model_handoff H env h p)
  unfolding acknowledge_model_handoff
  ack-Keeps env h p = search (keeping, acknowledge_row-Keeps) depth 9

  perform-Keeps : (env : Env) (call : Call) (db : Db) → Keeps db (perform H env call db)
  unfolding perform
  perform-Keeps env (consume_nonce p n e) db = (consume-Keeps env.clock p n e).at db
  perform-Keeps env (event e d) db = (append_event-Keeps env e d).at db
  perform-Keeps env (artifact k v c b) db = (register-Keeps env k v c b).at db
  perform-Keeps env (session row) db = (create-Keeps env row).at db
  perform-Keeps env (handoff s) db = (handoff-Keeps env s).at db
  perform-Keeps env (ack h p) db = (ack-Keeps env h p).at db

  -- After any history of calls, failed ones among them, from tables whose handoffs are in order, the
  -- handoffs are in order: each goes between two distinct participants of its session under the
  -- session's contract, a parent belongs to the same session, and the handoffs of a session are
  -- numbered 1, 2, 3, … in the order in which they were sent.
  pub IsMailbox-perform_all :
      (calls : List (Env × Call)) (db : Db) → IsMailbox db → IsMailbox (perform_all H calls db)
  unfolding perform_all
  IsMailbox-perform_all [] db m = m
  IsMailbox-perform_all ((env, call) ∷ rest) db m =
      IsMailbox-perform_all rest (perform H env call db) ((perform-Keeps env call db).apply m)
