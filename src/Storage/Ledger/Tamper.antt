-- ===== src/Storage/Ledger/Tamper.antt =====
-- What `verify_chain` of app/storage.py commits to: two ledgers that it accepts with one answer have
-- the same content, or else two rows at one place have different texts with one digest.
use text.Mathlib.TextLemmas.{append_inj, append_assoc, length-append}
use gpt_project_bridge.Base.{
  ℕ, String, ◌<>◌, ◌≡◌, ◌≢◌, sym, ◌∙◌, refl, ap, ◌⊎◌, inl, inr, List, [], ◌∷◌, arith, count, length,
  str_eq, eq_iff, Bool-cases, All,
}
use gpt_project_bridge.Host.{Host, HasDigestLength}
use gpt_project_bridge.Core.{Decision, pass, block, hold, value}
use gpt_project_bridge.Storage.Tables.{Db, LedgerRow}
use gpt_project_bridge.Storage.Ledger.{link, intact, verify_chain}
use gpt_project_bridge.Storage.Ledger.Chain.{Linked, tail_hash, verify_from-Linked}

-- the last letter tells the decisions apart
stem : Decision → String
stem pass = "PAS"
stem block = "BLOC"
stem hold = "HOL"

tip : Decision → String
tip pass = "S"
tip block = "K"
tip hold = "D"

value-stem-tip : (d : Decision) → value d ≡ stem d <> tip d
unfolding value stem tip
value-stem-tip pass = refl
value-stem-tip block = refl
value-stem-tip hold = refl

count-tip : (d : Decision) → count (tip d) ≡ 1
unfolding tip
count-tip pass = refl
count-tip block = refl
count-tip hold = refl

tip_inj : (d e : Decision) → tip d ≡ tip e → d ≡ e
unfolding tip
tip_inj pass pass p = refl
tip_inj block block p = refl
tip_inj hold hold p = refl
tip_inj pass block p = ground (arith, eq_iff "S" "K")
tip_inj pass hold p = ground (arith, eq_iff "S" "D")
tip_inj block pass p = ground (arith, eq_iff "K" "S")
tip_inj block hold p = ground (arith, eq_iff "K" "D")
tip_inj hold pass p = ground (arith, eq_iff "D" "S")
tip_inj hold block p = ground (arith, eq_iff "D" "K")

-- texts that end alike in length
suffix_inj : (s t a b : String) → s <> a ≡ t <> b → count a ≡ count b → (s ≡ t) × (a ≡ b)
suffix_inj s t a b e n =
    append_inj e (omega (arith, ap count e, length-append s a, length-append t b, n))

split_decision : (s t : String) (d e : Decision) → s <> value d ≡ t <> value e → (s ≡ t) × (d ≡ e)
split_decision s t d e p = (ends.0, same)
  where
    same : d ≡ e
    same =
        tip_inj d e
          (suffix_inj (s <> stem d) (t <> stem e) (tip d) (tip e)
            (append_assoc s (stem d) (tip d)
              ∙ ap (λ v. s <> v) (sym (value-stem-tip d))
              ∙ p
              ∙ ap (λ v. t <> v) (value-stem-tip e)
              ∙ sym (append_assoc t (stem e) (tip e)))
            (count-tip d ∙ sym (count-tip e))).1

    ends : (s ≡ t) × (value d ≡ value e)
    ends = suffix_inj s t (value d) (value e) p (ap (λ v. count (value v)) same)

-- A row whose decision is one that the program writes.
abbrev pub IsDecided : LedgerRow → Type 0
IsDecided row = (d : Decision) × (row.decision ≡ value d)

-- Row by row the same predecessor, digest, event and decision.
abbrev pub SameContent : List LedgerRow → List LedgerRow → Type 0
SameContent [] [] = Unit
SameContent (a ∷ rs) (b ∷ bs) =
    (a.prev_hash ≡ b.prev_hash)
    × (a.event_hash ≡ b.event_hash)
    × (a.event_json ≡ b.event_json)
    × (a.decision ≡ b.decision)
    × SameContent rs bs
SameContent _ _ = ⊥

-- the text that a row hashes, with the predecessor that it names
abbrev hashed : LedgerRow → String
hashed row = row.prev_hash <> (row.event_json <> row.decision)

-- At one place of two ledgers, rows whose texts differ and have one digest.
unfoldable pub Clash : Host → List LedgerRow → List LedgerRow → Type 0
Clash H (x ∷ xs) (y ∷ ys) =
    ((hashed x ≢ hashed y) × (H.sha256 (hashed x) ≡ H.sha256 (hashed y))) ⊎ Clash H xs ys
Clash H _ _ = ⊥

same_event :
    (x y : LedgerRow)
    → IsDecided x
    → IsDecided y
    → x.event_json <> x.decision ≡ y.event_json <> y.decision
    → (x.event_json ≡ y.event_json) × (x.decision ≡ y.decision)
same_event x y (d, dx) (e, ey) p =
    let (json, de) =
      split_decision x.event_json y.event_json d e
        (ap (λ v. x.event_json <> v) (sym dx) ∙ p ∙ ap (λ v. y.event_json <> v) ey) in
    (json, dx ∙ ap value de ∙ sym ey)

module _ (H : Host) (long : HasDigestLength H) where
  -- equal digests of texts with prefixes of one length
  split_link :
      (p q s t : String)
      → count p ≡ count q
      → H.sha256 (p <> s) ≡ H.sha256 (q <> t)
      → ((p ≡ q) × (s ≡ t)) ⊎ ((p <> s ≢ q <> t) × (H.sha256 (p <> s) ≡ H.sha256 (q <> t)))
  split_link p q s t n e = elim (Bool-cases (str_eq (p <> s) (q <> t))) [
    | inl same ↦ inl (append_inj ((eq_iff (p <> s) (q <> t)).0 same) n)
    | inr differ ↦ inr ((λ same. cc (differ, (eq_iff (p <> s) (q <> t)).1 same)), e)
  ]

  count-hash : {p q s t : String} → p ≡ H.sha256 s → q ≡ H.sha256 t → count p ≡ count q
  count-hash {s} {t} e f = ap count e ∙ long s ∙ sym (long t) ∙ sym (ap count f)

  commits :
      (p q : String) (xs ys : List LedgerRow)
      → count p ≡ count q
      → length xs ≡ length ys
      → tail_hash H p xs ≡ tail_hash H q ys
      → Linked H p xs
      → Linked H q ys
      → All IsDecided xs
      → All IsDecided ys
      → ((p ≡ q) × SameContent xs ys) ⊎ Clash H xs ys
  unfolding link Clash
  commits p q [] [] n l e lx ly dx dy = inl (e, tt)
  commits p q [] (y ∷ ys) n l e lx ly dx dy = absurd (omega arith)
  commits p q (x ∷ xs) [] n l e lx ly dx dy = absurd (omega arith)
  commits p q (x ∷ xs) (y ∷ ys) n l e lx ly dx dy =
      elim (commits x.event_hash y.event_hash xs ys (count-hash lx.1 ly.1) (omega arith) e lx.2 ly.2
        dx.1 dy.1) [
          | inr bad ↦ inr (inr bad)
          | inl (same, rest) ↦
              elim (split_link p q (x.event_json <> x.decision) (y.event_json <> y.decision) n
                (sym lx.1 ∙ same ∙ ly.1)) [
                  | inr bad ↦ inr (inl (rw (lx.0, ly.0) bad))
                  | inl (pq, content) ↦
                      let (json, decision) = same_event x y dx.0 dy.0 content in
                      inl (pq, (lx.0 ∙ pq ∙ sym ly.0, same, json, decision, rest))
                ]
        ]

  -- Two ledgers that the verifier accepts with the same number of events and the same head agree, row
  -- by row, in predecessor, digest, event and decision, if their decisions are ones that the program
  -- writes and digests have 64 characters; otherwise there is a place where the texts that the two
  -- rows hash differ and have one digest.
  pub verify_chain-SameContent :
      (db db' : Db) {n : ℕ} {h : String}
      → All IsDecided db.ledger
      → All IsDecided db'.ledger
      → verify_chain H db ≡ intact n h
      → verify_chain H db' ≡ intact n h
      → SameContent db.ledger db'.ledger ⊎ Clash H db.ledger db'.ledger
  unfolding verify_chain
  verify_chain-SameContent db db' {n} {h} dx dy e f =
      let (lx, nx, hx) = verify_from-Linked H 0 "GENESIS" db.ledger e in
      let (ly, ny, hy) = verify_from-Linked H 0 "GENESIS" db'.ledger f in
      elim (commits "GENESIS" "GENESIS" db.ledger db'.ledger refl (omega arith) (sym hx ∙ hy) lx ly
        dx dy) [ inl both ↦ inl both.1 | inr bad ↦ inr bad ]
