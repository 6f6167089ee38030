-- ===== src/Storage/Handoffs/Kept.antt =====
-- Sending and acknowledging keep the invariant of the handoffs.
use mathlib.Core.List.{append-nil}
use gpt_project_bridge.Base.{
  ℕ, ◌+◌, String, ◌≡◌, refl, sym, ap, subst, ◌∙◌, false, ◌&&◌, Option, none, some, List, [], ◌∷◌,
  ◌++◌, inl, inr, arith, Bool-cases, find_first, select-append, All, All-map, All-append, ◌==◌,
  if◌then◌else◌, eq_iff,
}
use gpt_project_bridge.Host.{Host}
use gpt_project_bridge.Storage.Tables.{Db, HandoffRow, Env}
use gpt_project_bridge.Storage.Sessions.{find_session}
use gpt_project_bridge.Storage.Handoffs.{
  Sending, find_handoff, is_foreign_parent, bad_parent, next_session_seq, handoff_row,
}
use gpt_project_bridge.Storage.Handoffs.Sent.{IsSent}
use gpt_project_bridge.Storage.Handoffs.Mailbox.{
  IsRouted, IsMailbox, Counts, of_session, Later, IsRouted-Later, Later-handoff, Counts-append,
  next_session_seq-length,
}
use gpt_project_bridge.Storage.Mailbox.{is_pending, set_acked}

module _ (H : Host) (env : Env) (s : Sending) (db : Db) (row : HandoffRow) (db' : Db)
    (sent : IsSent H env s db row db') where
  new_row : HandoffRow
  new_row = handoff_row env s (next_session_seq s.session_id db.handoffs) row.payload_hash

  built : row ≡ new_row
  unfolding new_row handoff_row next_session_seq
  built = λ i. record {
    handoff_id = sent.row_of.handoff_id i;
    session_id = sent.row_of.session i;
    session_seq = sent.row_of.number i;
    from_participant = sent.row_of.from i;
    to_participant = sent.row_of.to i;
    parent_handoff_id = sent.row_of.parent i;
    payload = sent.row_of.payload i;
    payload_hash = row.payload_hash;
    contract_hash = sent.row_of.contract i;
    status = sent.row_of.status i;
    created_at = sent.row_of.created i;
    acked_at = sent.row_of.acked i;
  }

  later : Later db db'
  later =
      Later-handoff db db' row (ap (λ d. d.sessions) sent.tables) (ap (λ d. d.handoffs) sent.tables)

  sent-IsRouted : IsRouted db' row
  unfolding handoff_row new_row
  sent-IsRouted = rw built (
      IsRouted-Later later _ (record {
        session = sent.allowed.session;
        found = sent.allowed.found;
        contract = sent.allowed.contract;
        from_enrolled = sent.allowed.from_enrolled;
        to_enrolled = sent.allowed.to_enrolled;
        distinct = sent.allowed.distinct;
        parent = sent.allowed.parent;
      }))

  session_of : row.session_id ≡ s.session_id
  session_of = sent.row_of.session

  seq_of : row.session_seq ≡ next_session_seq s.session_id db.handoffs
  unfolding next_session_seq
  seq_of = sent.row_of.number

  sent-numbered :
      (k : String)
      → Counts 0 (of_session k db.handoffs)
      → Counts 0 (of_session k (db.handoffs ++ row ∷ []))
  sent-numbered k c =
      simp (select-append (λ r. r.session_id == k) db.handoffs (row ∷ []))
        (elim (Bool-cases (row.session_id == k)) [
          | inl own ↦ rw own (
              Counts-append 0 (of_session k db.handoffs) row c (
                omega (
                  arith,
                  seq_of
                      ∙ ap (λ j. next_session_seq j db.handoffs)
                          (sym session_of ∙ (eq_iff row.session_id k).0 own),
                  next_session_seq-length k db.handoffs c,
                )))
          | inr other ↦ rw other (rw append-nil c)
        ])

  pub IsMailbox-sent : IsMailbox db → IsMailbox db'
  IsMailbox-sent m = record {
    routed =
        subst (λ rows. All (IsRouted db') rows) (sym (ap (λ d. d.handoffs) sent.tables))
          (All-append (IsRouted db') db.handoffs (row ∷ [])
            (All-map (IsRouted db) (IsRouted db') (λ r. IsRouted-Later later r) db.handoffs
              m.routed)
            (sent-IsRouted, tt));
    numbered = λ k. simp (ap (λ d. d.handoffs) sent.tables) (sent-numbered k (m.numbered k));
  }

-- Acknowledging changes the status of one row and nothing that the invariant reads.
module _ (i t : String) where
  Counts-own :
      (k : String) (n : ℕ) (row row' : HandoffRow) (rows : List HandoffRow)
      → row'.session_id ≡ row.session_id
      → row'.session_seq ≡ row.session_seq
      → Counts n (of_session k (row ∷ rows))
      → (Counts (n + 1) (of_session k rows) → Counts (n + 1) (of_session k (set_acked i t rows)))
      → (Counts n (of_session k rows) → Counts n (of_session k (set_acked i t rows)))
      → Counts n (
          if row'.session_id == k
          then row' ∷ of_session k (set_acked i t rows)
          else of_session k (set_acked i t rows))
  Counts-own k n row row' rows e f c behind here = elim (Bool-cases (row.session_id == k)) [
    | inl own ↦ rw (e, own) (let d = rw own at c in (f ∙ d.0, behind d.1))
    | inr other ↦ rw (e, other) (here (rw other at c))
  ]

  Counts-acked :
      (k : String) (n : ℕ) (rows : List HandoffRow)
      → Counts n (of_session k rows)
      → Counts n (of_session k (set_acked i t rows))
  unfolding set_acked
  Counts-acked k n [] c = tt
  Counts-acked k n (row ∷ rows) c =
      elim (Bool-cases (row.handoff_id == i && is_pending row.status)) [
        | inl marked ↦ rw marked (
            Counts-own k n row _ rows refl refl c (Counts-acked k (n + 1) rows)
              (Counts-acked k n rows))
        | inr kept ↦ rw kept (
            Counts-own k n row _ rows refl refl c (Counts-acked k (n + 1) rows)
              (Counts-acked k n rows))
      ]

  foreign-acked :
      (k p : String) (rows : List HandoffRow)
      → is_foreign_parent k (find_first (λ row. row.handoff_id == p) (set_acked i t rows))
        ≡ is_foreign_parent k (find_first (λ row. row.handoff_id == p) rows)
  unfolding set_acked is_foreign_parent
  foreign-acked k p [] = refl
  foreign-acked k p (row ∷ rows) = ground (arith, foreign-acked k p rows)

  Later-acked : (db : Db) → Later db (record db { handoffs = set_acked i t db.handoffs })
  unfolding find_session bad_parent find_handoff
  Later-acked db = record { sessions = λ k x e. e; parents = later_parent }
    where
      later_parent :
          (k : String) (p : Option String)
          → bad_parent k p db ≡ false
          → bad_parent k p (record db { handoffs = set_acked i t db.handoffs }) ≡ false
      later_parent k none e = refl
      later_parent k (some p) e = foreign-acked k p db.handoffs ∙ e

  IsRouted-acked :
      (db : Db) (rows : List HandoffRow)
      → All (IsRouted db) rows
      → All (IsRouted db) (set_acked i t rows)
  unfolding set_acked
  IsRouted-acked db [] r = tt
  IsRouted-acked db (row ∷ rows) r = (
    elim (Bool-cases (row.handoff_id == i && is_pending row.status)) [
      | inl marked ↦ rw marked (record {
        session = r.0.session;
        found = r.0.found;
        contract = r.0.contract;
        from_enrolled = r.0.from_enrolled;
        to_enrolled = r.0.to_enrolled;
        distinct = r.0.distinct;
        parent = r.0.parent;
      })
      | inr kept ↦ rw kept r.0
    ],
    IsRouted-acked db rows r.1,
  )

  pub IsMailbox-acked :
      (db : Db) → IsMailbox db → IsMailbox (record db { handoffs = set_acked i t db.handoffs })
  IsMailbox-acked db m = record {
    routed =
        All-map (IsRouted db) _ (λ row. IsRouted-Later (Later-acked db) row)
          (set_acked i t db.handoffs) (IsRouted-acked db db.handoffs m.routed);
    numbered = λ k. Counts-acked k 0 db.handoffs (m.numbered k);
  }
