-- ===== src/Storage/Ledger/Replay.antt =====
-- What `replay` of app/storage.py counts.
use gpt_project_bridge.Base.{
  ◌+◌, String, ◌≡◌, refl, ◌∙◌, inl, inr, Bool, none, some, List, [], ◌∷◌, arith, length, All,
  count_of, ok, Bool-cases, ◌==◌, eq_iff,
}
use gpt_project_bridge.Host.{Host}
use gpt_project_bridge.Json.{Json}
use gpt_project_bridge.Storage.Tables.{Db, LedgerRow}
use gpt_project_bridge.Storage.Ledger.{Replayed, replay, replay_row, replay_rows}

unfoldable pub decided : String → LedgerRow → Bool
decided d row = row.decision == d

count_cons :
    (p : LedgerRow → Bool) (row : LedgerRow) (rows : List LedgerRow)
    → count_of p (row ∷ rows) ≡ count_of p (row ∷ []) + count_of p rows
count_cons p row rows = elim (Bool-cases (p row)) [
  | inl t ↦ rw t (omega arith)
  | inr f ↦ rw f (omega arith)
]

module _ (H : Host) where
  -- the payload is a JSON text
  unfoldable pub Reads : LedgerRow → Type 0
  Reads row = (event : Json) × (H.json_loads row.event_json ≡ some event)

  -- the counts of the rows on top of those of a state
  Counted : List LedgerRow → Replayed → Replayed → Type 0
  Counted rows s t =
      (t.accepted ≡ s.accepted + count_of (decided "PASS") rows)
      × (t.blocked ≡ s.blocked + count_of (decided "BLOCK") rows)
      × (t.accepted + t.blocked + t.held ≡ s.accepted + s.blocked + s.held + length rows)

  replay_row-Counted :
      (row : LedgerRow) (event : Json) (s : Replayed)
      → Counted (row ∷ []) s (replay_row H row event s)
  unfolding replay_row Counted decided
  replay_row-Counted row event s = elim (Bool-cases (row.decision == "PASS")) [
    | inl p ↦ rw (p, (eq_iff row.decision "PASS").0 p) (omega arith, omega arith, omega arith)
    | inr p ↦ elim (Bool-cases (row.decision == "BLOCK")) [
      | inl b ↦ rw (p, b) (omega arith, omega arith, omega arith)
      | inr b ↦ rw (p, b) (omega arith, omega arith, omega arith)
    ]
  ]

  Counted-trans :
      (row : LedgerRow) (rows : List LedgerRow) (s t u : Replayed)
      → Counted (row ∷ []) s t
      → Counted rows t u
      → Counted (row ∷ rows) s u
  unfolding Counted
  Counted-trans row rows s t u h k =
      let passes = count_cons (decided "PASS") row rows in
      let blocks = count_cons (decided "BLOCK") row rows in
      let (h0, h1, h2) = h in let (k0, k1, k2) = k in (omega arith, omega arith, omega arith)

  replay_rows-step :
      (row : LedgerRow) (rows : List LedgerRow) (s : Replayed) (event : Json)
      → H.json_loads row.event_json ≡ some event
      → replay_rows H (row ∷ rows) s ≡ replay_rows H rows (replay_row H row event s)
  unfolding replay_rows
  replay_rows-step row rows s event e = rw (replay_rows, e)

  replay_rows-Counted :
      (rows : List LedgerRow) (s : Replayed)
      → All Reads rows
      → (t : Replayed) × (replay_rows H rows s ≡ ok t) × Counted rows s t
  unfolding replay_rows Counted Reads
  replay_rows-Counted [] s h = (s, refl, (omega arith, omega arith, omega arith))
  replay_rows-Counted (row ∷ rows) s ((event, e), h) =
      let next = replay_row H row event s in
      let (t, done, counts) = replay_rows-Counted rows next h in
      (
        t,
        replay_rows-step row rows s event e ∙ done,
        Counted-trans row rows s next t (replay_row-Counted row event s) counts,
      )

  -- Where every stored payload is a JSON text, `replay` returns, counts the PASS and the BLOCK
  -- events of the ledger, and its three counts add up to the number of events.
  pub replay-Counted :
      (db : Db)
      → All Reads db.ledger
      → (t : Replayed) × (replay H db ≡ ok t)
        × (t.accepted ≡ count_of (decided "PASS") db.ledger)
        × (t.blocked ≡ count_of (decided "BLOCK") db.ledger)
        × (t.accepted + t.blocked + t.held ≡ length db.ledger)
  unfolding replay replay_rows Counted
  replay-Counted db h =
      let (t, done, (passes, blocks, all)) =
        replay_rows-Counted db.ledger
          (record { accepted = 0; blocked = 0; held = 0; last_event = none }) h in
      (t, done, omega arith, omega arith, omega arith)
