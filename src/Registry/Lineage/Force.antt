-- ===== src/Registry/Lineage/Force.antt =====
-- No two keys of an authority are in force at one time.
use gpt_project_bridge.Base.{
  ℕ, ◌≤◌, ◌<◌, ◌≡◌, refl, sym, ap, ◌∙◌, inl, inr, true, List, [], ◌∷◌, arith, eq_iff,
}
use gpt_project_bridge.Registry.Keys.{effective_at}
use gpt_project_bridge.Registry.Keys.Effective.{effective_at_lem}
use gpt_project_bridge.Registry.Table.{KeyRow, has_authority}
use gpt_project_bridge.Registry.Lineage.{Follows, IsLine, IsKeyring, In, In-select, keys_of}

abbrev Within : KeyRow → ℕ → Type 0
Within row t = (row.key.valid_from ≤ t) × (t < row.key.valid_until)

later :
    (x : KeyRow) (rest : List KeyRow) (r : KeyRow)
    → Follows x rest
    → In r rest
    → x.key.valid_until ≤ r.key.valid_from
later x [] r f m = absurd m
later x (y ∷ rest) r f (inl e) = rw e (omega arith)
later x (y ∷ rest) r f (inr m) = omega (arith, later y rest r f.3 m)

apart :
    (x : KeyRow) (rest : List KeyRow) (r s : KeyRow) (t : ℕ)
    → Follows x rest
    → In r (x ∷ rest)
    → In s (x ∷ rest)
    → Within r t
    → Within s t
    → r ≡ s
apart x rest r s t f (inl e) (inl d) wr ws = e ∙ sym d
apart x rest r s t f (inl e) (inr n) wr ws =
    absurd (omega (arith, later x rest s f n, ap (λ (q : KeyRow). q.key.valid_until) e))
apart x rest r s t f (inr m) (inl d) wr ws =
    absurd (omega (arith, later x rest r f m, ap (λ (q : KeyRow). q.key.valid_until) d))
apart x [] r s t f (inr m) (inr n) wr ws = absurd m
apart x (y ∷ rest) r s t f (inr m) (inr n) wr ws = apart y rest r s t f.3 m n wr ws

In-line :
    (line : List KeyRow) (r s : KeyRow) (t : ℕ)
    → IsLine line
    → In r line
    → In s line
    → Within r t
    → Within s t
    → r ≡ s
In-line [] r s t l m n wr ws = absurd m
In-line (x ∷ rest) r s t l m n wr ws = apart x rest r s t l.2 m n wr ws

within : (r : KeyRow) (t : ℕ) → effective_at r.key t ≡ true → Within r t
within r t h = let w = (effective_at_lem r.key t "").0.0 h in (w.0, w.1)

-- In a table whose keys are in line, two keys of one authority that are in force at one time are one
-- and the same row.
pub effective_at_unique :
    (rows : List KeyRow) (r s : KeyRow) (t : ℕ)
    → IsKeyring rows
    → In r rows
    → In s rows
    → r.key.authority_id ≡ s.key.authority_id
    → effective_at r.key t ≡ true
    → effective_at s.key t ≡ true
    → r ≡ s
effective_at_unique rows r s t k m n a er es =
    In-line (keys_of s.key.authority_id rows) r s t (k.line s.key.authority_id)
      (In-select (has_authority s.key.authority_id) rows r m ((eq_iff _ _).1 a))
      (In-select (has_authority s.key.authority_id) rows s n ((eq_iff _ _).1 refl)) (within r t er)
      (within s t es)
