-- ===== src/Storage/Calls/Growth.antt =====
-- Whatever is called, the ledger of app/storage.py is append-only and its chain verifies.
use gpt_project_bridge.Base.{
  ℕ, String, ◌≡◌, refl, Option, none, some, List, [], ◌∷◌, ◌++◌, length, Bool-cases, inl, inr,
  any_of, modify,
}
use gpt_project_bridge.Base.Steps.{
  Steps, Steps-pure, Steps-raise, Steps-lift, Steps-gets, Steps-or_raise, Steps-transaction,
  Steps-raise_if, Steps-bind,
}
use gpt_project_bridge.Json.{Fields}
use gpt_project_bridge.Host.{Host}
use gpt_project_bridge.Storage.Tables.{
  Db, LedgerRow, ArtifactRow, SessionRow, HandoffRow, Status, pending, acked, Env,
}
use gpt_project_bridge.Storage.Ledger.{head, append_event, intact, verify_chain}
use gpt_project_bridge.Storage.Ledger.Chain.{verify_chain_iff}
use gpt_project_bridge.Storage.Ledger.Growth.{
  Grows, Grows-same, Grows-order, Grows-modify, append_ledger_tx-Grows,
}
use gpt_project_bridge.Storage.Nonces.{consume_auth_nonce, is_nonce, live_nonces}
use gpt_project_bridge.Storage.Artifacts.{register_found, register_contract_artifact}
use gpt_project_bridge.Storage.Sessions.{insert_session, create_model_session}
use gpt_project_bridge.Storage.Handoffs.{
  Sending, check_sending, insert_handoff, place_handoff, send_handoff, append_model_handoff,
}
use gpt_project_bridge.Storage.Mailbox.{set_acked, acknowledge_row, acknowledge_model_handoff}
use gpt_project_bridge.Storage.Calls.{
  Call, consume_nonce, event, artifact, session, handoff, ack, perform, perform_all,
}

module _ (H : Host) where
  add_artifact :
      (row : ArtifactRow)
      → Steps (Grows H) (modify (λ db. record db { artifacts = db.artifacts ++ row ∷ [] }))
  add_artifact row =
      Grows-modify H (λ db. record db { artifacts = db.artifacts ++ row ∷ [] }) (λ db. refl)

  add_session :
      (row : SessionRow)
      → Steps (Grows H) (modify (λ db. record db { sessions = db.sessions ++ row ∷ [] }))
  add_session row =
      Grows-modify H (λ db. record db { sessions = db.sessions ++ row ∷ [] }) (λ db. refl)

  add_handoff :
      (row : HandoffRow)
      → Steps (Grows H) (modify (λ db. record db { handoffs = db.handoffs ++ row ∷ [] }))
  add_handoff row =
      Grows-modify H (λ db. record db { handoffs = db.handoffs ++ row ∷ [] }) (λ db. refl)

  mark_acked :
      (i t : String)
      → Steps (Grows H) (modify (λ db. record db { handoffs = set_acked i t db.handoffs }))
  mark_acked i t =
      Grows-modify H (λ db. record db { handoffs = set_acked i t db.handoffs }) (λ db. refl)

ruleset growth = (
  Steps-pure, Steps-raise, Steps-lift, Steps-gets, Steps-or_raise, Steps-transaction,
  Steps-raise_if, Steps-bind, Grows-order, append_ledger_tx-Grows, add_artifact, add_session,
  add_handoff, mark_acked,
)

module _ (H : Host) where
  consume-Grows :
      (clock : ℕ) (p n : String) (e : ℕ) → Steps (Grows H) (consume_auth_nonce clock p n e)
  unfolding consume_auth_nonce
  consume-Grows clock p n e = record {
    at = λ db. elim (Bool-cases (any_of (is_nonce p n) (live_nonces clock db.nonces))) [
      | inl t ↦ Grows-same H db _ (rw t)
      | inr f ↦ Grows-same H db _ (rw f)
    ];
  }

  append_event-Grows :
      (env : Env) (e : Fields) (d : String) → Steps (Grows H) (append_event H env e d)
  unfolding append_event
  append_event-Grows env e d = search growth

  register_found-Grows :
      (env : Env) (row : ArtifactRow) (o : Option ArtifactRow)
      → Steps (Grows H) (register_found H env row o)
  unfolding register_found
  register_found-Grows env row none = search growth depth 7
  register_found-Grows env row (some r) = search growth

  register-Grows :
      (env : Env) (k v : String) (c : Fields) (b : String)
      → Steps (Grows H) (register_contract_artifact H env k v c b)
  unfolding register_contract_artifact
  register-Grows env k v c b = search (growth, register_found-Grows) depth 7

  insert_session-Grows : (row : SessionRow) → Steps (Grows H) (insert_session row)
  unfolding insert_session
  insert_session-Grows row = search growth

  create-Grows : (env : Env) (row : SessionRow) → Steps (Grows H) (create_model_session H env row)
  unfolding create_model_session
  create-Grows env row = search (growth, insert_session-Grows) depth 7

  check_sending-Grows : (s : Sending) → Steps (Grows H) (check_sending s)
  unfolding check_sending
  check_sending-Grows s = search growth depth 9

  insert_handoff-Grows : (row : HandoffRow) → Steps (Grows H) (insert_handoff row)
  unfolding insert_handoff
  insert_handoff-Grows row = search growth

  place_handoff-Grows : (env : Env) (row : HandoffRow) → Steps (Grows H) (place_handoff H env row)
  unfolding place_handoff
  place_handoff-Grows env row = search (growth, insert_handoff-Grows)

  handoff-Grows : (env : Env) (s : Sending) → Steps (Grows H) (append_model_handoff H env s)
  unfolding append_model_handoff send_handoff
  handoff-Grows env s = search (growth, check_sending-Grows, place_handoff-Grows) depth 9

  acknowledge_row-Grows :
      (env : Env) (row : HandoffRow) (p : String) (st : Status)
      → Steps (Grows H) (acknowledge_row H env row p st)
  unfolding acknowledge_row
  acknowledge_row-Grows env row p pending = search growth
  acknowledge_row-Grows env row p acked = search growth

  ack-Grows : (env : Env) (h p : String) → Steps (Grows H) (acknowledge_model_handoff H env h p)
  unfolding acknowledge_model_handoff
  ack-Grows env h p = search (growth, acknowledge_row-Grows) depth 9

  perform-Grows : (env : Env) (call : Call) (db : Db) → Grows H db (perform H env call db)
  unfolding perform
  perform-Grows env (consume_nonce p n e) db = (consume-Grows env.clock p n e).at db
  perform-Grows env (event e d) db = (append_event-Grows env e d).at db
  perform-Grows env (artifact k v c b) db = (register-Grows env k v c b).at db
  perform-Grows env (session row) db = (create-Grows env row).at db
  perform-Grows env (handoff s) db = (handoff-Grows env s).at db
  perform-Grows env (ack h p) db = (ack-Grows env h p).at db

  pub perform_all-Grows :
      (calls : List (Env × Call)) (db : Db) → Grows H db (perform_all H calls db)
  unfolding perform_all
  perform_all-Grows [] db = (Grows-order H).refl_at db
  perform_all-Grows ((env, call) ∷ rest) db =
      (Grows-order H).trans_at db (perform H env call db)
        (perform_all H rest (perform H env call db)) (perform-Grows env call db)
        (perform_all-Grows rest (perform H env call db))

  -- After any history of calls, failed ones among them, the ledger is the one of the beginning with
  -- rows behind it, and if the verifier accepted it at the beginning then it accepts it at the end,
  -- with the number of its rows and the hash of the last.
  pub verify_chain-perform_all :
      (calls : List (Env × Call)) (db : Db)
      → verify_chain H db ≡ intact (length db.ledger) (head db.ledger)
      → let db' = perform_all H calls db in
        ((added : List LedgerRow) × (db'.ledger ≡ db.ledger ++ added))
        × (verify_chain H db' ≡ intact (length db'.ledger) (head db'.ledger))
  verify_chain-perform_all calls db accepted =
      let g = perform_all-Grows calls db in
      (
        (g.added, g.ledger),
        (verify_chain_iff H (perform_all H calls db)).1
            (g.chained ((verify_chain_iff H db).0 accepted)),
      )
