-- ===== src/Storage/Handoffs/Mailbox.antt =====
-- The invariant of the handoffs: each is routed between two participants of its session under the
-- session's contract, its parent belongs to the session, and a session numbers its handoffs 1, 2, ….
use gpt_project_bridge.Base.{
  ℕ, ◌+◌, String, ◌≡◌, ◌≢◌, refl, sym, true, false, Option, none, some, List, [], ◌∷◌, ◌++◌, subst,
  inl, inr, arith, Option-cases, find_first, find_first-append, select, max_of, All, All-map,
  length, ◌==◌,
}
use gpt_project_bridge.Storage.Tables.{Db, SessionRow, HandoffRow}
use gpt_project_bridge.Storage.Sessions.{find_session}
use gpt_project_bridge.Storage.Handoffs.{find_handoff, is_enrolled, bad_parent, next_session_seq}

pub record IsRouted (db : Db) (row : HandoffRow) : Type 0 where
  pub session : SessionRow
  pub found : find_session row.session_id db ≡ some session
  pub contract : session.contract_hash ≡ row.contract_hash
  pub from_enrolled : is_enrolled row.from_participant session ≡ true
  pub to_enrolled : is_enrolled row.to_participant session ≡ true
  pub distinct : row.from_participant ≢ row.to_participant
  pub parent : bad_parent row.session_id row.parent_handoff_id db ≡ false

-- k + 1, k + 2, …
abbrev pub Counts : ℕ → List HandoffRow → Type 0
Counts k [] = Unit
Counts k (row ∷ rows) = (row.session_seq ≡ k + 1) × Counts (k + 1) rows

abbrev pub of_session : String → List HandoffRow → List HandoffRow
of_session session_id rows = select (λ row. row.session_id == session_id) rows

pub record IsMailbox (db : Db) : Type 0 where
  pub routed : All (IsRouted db) db.handoffs
  pub numbered : (session_id : String) → Counts 0 (of_session session_id db.handoffs)

-- What may change in the tables without harm to a handoff that is already there.
pub record Later (db db' : Db) : Type 0 where
  pub sessions :
      (k : String) (s : SessionRow) → find_session k db ≡ some s → find_session k db' ≡ some s
  pub parents :
      (k : String) (p : Option String) → bad_parent k p db ≡ false → bad_parent k p db' ≡ false

pub IsRouted-Later :
    {db db' : Db} → Later db db' → (row : HandoffRow) → IsRouted db row → IsRouted db' row
IsRouted-Later l row r = record {
  session = r.session;
  found = l.sessions row.session_id r.session r.found;
  contract = r.contract;
  from_enrolled = r.from_enrolled;
  to_enrolled = r.to_enrolled;
  distinct = r.distinct;
  parent = l.parents row.session_id row.parent_handoff_id r.parent;
}

module _ (db db' : Db) where
  pub Later-session :
      (row : SessionRow)
      → db'.sessions ≡ db.sessions ++ row ∷ []
      → db'.handoffs ≡ db.handoffs
      → Later db db'
  unfolding find_session bad_parent
  Later-session row s h = record {
    sessions = λ k x e. simp s (find_first-append _ db.sessions (row ∷ []) x e);
    parents = later_parent;
  }
    where
      later_parent :
          (k : String) (p : Option String) → bad_parent k p db ≡ false → bad_parent k p db' ≡ false
      later_parent k none e = refl
      later_parent k (some p) e = simp h e

  pub Later-same : db'.sessions ≡ db.sessions → db'.handoffs ≡ db.handoffs → Later db db'
  unfolding find_session bad_parent
  Later-same s h = record { sessions = λ k x e. simp s e; parents = later_parent }
    where
      later_parent :
          (k : String) (p : Option String) → bad_parent k p db ≡ false → bad_parent k p db' ≡ false
      later_parent k none e = refl
      later_parent k (some p) e = simp h e

  -- the invariant where the handoffs are the same
  pub IsMailbox-Later : Later db db' → db'.handoffs ≡ db.handoffs → IsMailbox db → IsMailbox db'
  IsMailbox-Later l h m = record {
    routed =
        subst (λ rows. All (IsRouted db') rows) (sym h)
          (All-map (IsRouted db) (IsRouted db') (λ row. IsRouted-Later l row) db.handoffs m.routed);
    numbered = λ k. simp h (m.numbered k);
  }

  -- A handoff that is put behind the others.
  pub Later-handoff :
      (row : HandoffRow)
      → db'.sessions ≡ db.sessions
      → db'.handoffs ≡ db.handoffs ++ row ∷ []
      → Later db db'
  unfolding find_session bad_parent find_handoff
  Later-handoff row s h = record { sessions = λ k x e. simp s e; parents = later_parent }
    where
      later_parent :
          (k : String) (p : Option String) → bad_parent k p db ≡ false → bad_parent k p db' ≡ false
      later_parent k none e = refl
      later_parent k (some p) e =
          elim (Option-cases (find_first (λ r. r.handoff_id == p) db.handoffs)) [
            | inl gone ↦ absurd (cc (rw gone at e))
            | inr (x, here) ↦
                simp h (rw (find_first-append _ db.handoffs (row ∷ []) x here) (rw here at e))
          ]

pub Counts-append :
    (k : ℕ) (rows : List HandoffRow) (row : HandoffRow)
    → Counts k rows
    → row.session_seq ≡ k + length rows + 1
    → Counts k (rows ++ row ∷ [])
Counts-append k [] row c e = (omega arith, tt)
Counts-append k (r ∷ rows) row c e = (c.0, Counts-append (k + 1) rows row c.1 (omega arith))

Counts-max :
    (k : ℕ) (r : HandoffRow) (rows : List HandoffRow)
    → Counts k (r ∷ rows)
    → max_of (λ row. row.session_seq) (r ∷ rows) ≡ k + length (r ∷ rows)
Counts-max k r [] c = omega arith
Counts-max k r (s ∷ rows) c = omega (arith, Counts-max (k + 1) s rows c.1)

-- The next number of a session is one more than the number of its handoffs.
pub next_session_seq-length :
    (k : String) (rows : List HandoffRow)
    → Counts 0 (of_session k rows)
    → next_session_seq k rows ≡ length (of_session k rows) + 1
unfolding next_session_seq
next_session_seq-length k rows c = go (of_session k rows) c
  where
    go :
        (own : List HandoffRow)
        → Counts 0 own
        → max_of (λ row. row.session_seq) own + 1 ≡ length own + 1
    go [] d = refl
    go (r ∷ own) d = omega (arith, Counts-max 0 r own d)
