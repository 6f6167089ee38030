-- ===== src/Storage/Handoffs/Sent.antt =====
-- What a call of `append_model_handoff` that returned has checked and written.
use gpt_project_bridge.Base.{
  ℕ, String, ◌≡◌, ◌≢◌, refl, true, false, some, [], ◌∷◌, ◌++◌, ok, Result-cases, Option-cases,
  Bool-cases, inl, inr, arith, any_of, eq_iff, none, List, ◌+◌, ◌<>◌, max_of, select, ◌==◌, sym,
  subst,
}
use gpt_project_bridge.Base.Text.{take_text}
use gpt_project_bridge.Json.{Fields}
use gpt_project_bridge.Host.{Host}
use gpt_project_bridge.ModelBridge.Defs.{build_handoff_digest}
use gpt_project_bridge.Storage.Tables.{Db, SessionRow, HandoffRow, Env, pending}
use gpt_project_bridge.Storage.Ledger.{Receipt, stamp, append_ledger_tx}
use gpt_project_bridge.Storage.Sessions.{find_session}
use gpt_project_bridge.Storage.Handoffs.{
  Sending, is_enrolled, bad_parent, next_session_seq, clashes, insert_handoff, check_sending,
  handoff_of, handoff_row, handoff_event, place_handoff, send_handoff, append_model_handoff,
}

-- The session lets this handoff through.
pub record IsAllowed (s : Sending) (db : Db) : Type 0 where
  pub session : SessionRow
  pub found : find_session s.session_id db ≡ some session
  pub contract : session.contract_hash ≡ s.expected_contract_hash
  pub from_enrolled : is_enrolled s.from_participant session ≡ true
  pub to_enrolled : is_enrolled s.to_participant session ≡ true
  pub distinct : s.from_participant ≢ s.to_participant
  pub parent : bad_parent s.session_id s.parent_handoff_id db ≡ false

pub check_sending-IsAllowed :
    (s : Sending) (db : Db) {t : Db} → check_sending s db ≡ (ok tt, t) → IsAllowed s db × (t ≡ db)
unfolding check_sending
check_sending-IsAllowed s db e = elim (Option-cases (find_session s.session_id db)) [
  | inl missing ↦ absurd (ground arith)
  | inr (session, found) ↦ (
    record {
      session = session;
      found = found;
      contract = ground (arith, eq_iff session.contract_hash s.expected_contract_hash);
      from_enrolled = ground arith;
      to_enrolled = ground arith;
      distinct = λ same. absurd (ground (arith, eq_iff s.from_participant s.to_participant));
      parent = ground arith;
    },
    ground arith,
  )
]

pub ledger_only :
    (H : Host) (env : Env) (event : Fields) (decision : String) (db : Db)
    → let db' = (append_ledger_tx H env event decision db).1 in
      db' ≡ record db { ledger = db'.ledger }
unfolding append_ledger_tx
ledger_only H env event decision db = elim (Result-cases (stamp env event)) [
  | inl (stored, p) ↦ ground arith
  | inr (x, p) ↦ ground arith
]

-- What the two INSERTs have done where they returned.
pub place_handoff-ok :
    (H : Host) (env : Env) (row : HandoffRow) (db : Db) {r : HandoffRow} {receipt : Receipt}
    {db' : Db}
    → place_handoff H env row db ≡ (ok (r, receipt), db')
    → (r ≡ row)
      × (any_of (clashes row) db.handoffs ≡ false)
      × (db' ≡ record db { handoffs = db.handoffs ++ row ∷ []; ledger = db'.ledger })
unfolding place_handoff insert_handoff
place_handoff-ok H env row db {r} {receipt} {db'} e =
    elim (Bool-cases (any_of (clashes row) db.handoffs)) [
      | inl taken ↦ absurd (ground arith)
      | inr fresh ↦
          let db₁ : Db = record db { handoffs = db.handoffs ++ row ∷ [] } in
          elim (Result-cases (append_ledger_tx H env (handoff_event row) "PASS" db₁).0) [
            | inr (x, p) ↦ absurd (ground arith)
            | inl (receipt', p) ↦ (
              ground arith,
              fresh,
              ground (arith, ledger_only H env (handoff_event row) "PASS" db₁),
            )
          ]
    ]

-- The row has what was asked for, the number behind the session's highest one, the digest of the
-- handoff with that number, and an id made of the digest.
pub record IsRowOf (H : Host) (env : Env) (s : Sending) (rows : List HandoffRow) (row : HandoffRow)
    : Type 0 where
  pub handoff_id : row.handoff_id ≡ "mh_" <> take_text 32 row.payload_hash
  pub session : row.session_id ≡ s.session_id
  pub number :
      row.session_seq
      ≡ max_of
          (λ (r : HandoffRow). r.session_seq)
          (select (λ (r : HandoffRow). r.session_id == s.session_id) rows)
        + 1
  pub from : row.from_participant ≡ s.from_participant
  pub to : row.to_participant ≡ s.to_participant
  pub parent : row.parent_handoff_id ≡ s.parent_handoff_id
  pub payload : row.payload ≡ s.payload
  pub hashed :
      build_handoff_digest H (record {
        session_id = row.session_id;
        sequence = row.session_seq;
        from_participant = row.from_participant;
        to_participant = row.to_participant;
        parent_handoff_id = row.parent_handoff_id;
        payload = row.payload;
        frozen_contract_hash = row.contract_hash;
      })
      ≡ ok row.payload_hash
  pub contract : row.contract_hash ≡ s.expected_contract_hash
  pub status : row.status ≡ pending
  pub created : row.created_at ≡ env.now
  pub acked : row.acked_at ≡ none

handoff_row-IsRowOf :
    (H : Host) (env : Env) (s : Sending) (rows : List HandoffRow) (digest : String)
    → build_handoff_digest H (handoff_of s (next_session_seq s.session_id rows)) ≡ ok digest
    → IsRowOf H env s rows (handoff_row env s (next_session_seq s.session_id rows) digest)
unfolding handoff_row handoff_of next_session_seq
handoff_row-IsRowOf H env s rows digest e = record {
  handoff_id = refl;
  session = refl;
  number = refl;
  from = refl;
  to = refl;
  parent = refl;
  payload = refl;
  hashed = e;
  contract = refl;
  status = refl;
  created = refl;
  acked = refl;
}

-- What a handoff that was accepted was checked for and what it left behind.
pub record IsSent (H : Host) (env : Env) (s : Sending) (db : Db) (row : HandoffRow) (db' : Db)
    : Type 0 where
  pub allowed : IsAllowed s db
  pub row_of : IsRowOf H env s db.handoffs row
  pub fresh : any_of (clashes row) db.handoffs ≡ false
  pub tables : db' ≡ record db { handoffs = db.handoffs ++ row ∷ []; ledger = db'.ledger }

-- An `append_model_handoff` that returned has found the session with the expected contract, two
-- distinct enrolled participants and a parent of the session; its row has what was asked for, the
-- number behind the session's highest one, the digest of the handoff with that number and an id made of
-- the digest; and exactly that row was added, with the ledger the only other table it changed.
pub append_model_handoff-IsSent :
    (H : Host) (env : Env) (s : Sending) (db : Db) {row : HandoffRow} {receipt : Receipt} {db' : Db}
    → append_model_handoff H env s db ≡ (ok (row, receipt), db')
    → IsSent H env s db row db'
unfolding append_model_handoff send_handoff
append_model_handoff-IsSent H env s db {row} {receipt} {db'} e =
    elim (Result-cases (check_sending s db).0) [
      | inr (x, p) ↦ absurd (ground arith)
      | inl (u, p) ↦
          let (allowed, same) =
            check_sending-IsAllowed s db {t = (check_sending s db).1}
              (λ i. (p i, (check_sending s db).1)) in
          let sequence : ℕ = next_session_seq s.session_id db.handoffs in
          elim (Result-cases (build_handoff_digest H (handoff_of s sequence))) [
            | inr (x, q) ↦ absurd (ground arith)
            | inl (digest, q) ↦
                let (built, fresh, tables) =
                  place_handoff-ok H env (handoff_row env s sequence digest) db {r = row}
                    {receipt = receipt} {db' = db'} (ground arith) in
                record {
                  allowed = allowed;
                  row_of =
                      subst (IsRowOf H env s db.handoffs) (sym built)
                        (handoff_row-IsRowOf H env s db.handoffs digest q);
                  fresh = rw built fresh;
                  tables = rw built tables;
                }
          ]
    ]
