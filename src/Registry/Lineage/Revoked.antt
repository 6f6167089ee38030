-- ===== src/Registry/Lineage/Revoked.antt =====
-- A revocation leaves the lines of keys as they are.
use gpt_project_bridge.Base.{
  ℕ, String, ◌≡◌, refl, sym, ap, ◌∙◌, inl, inr, Bool, Option, none, some, List, [], ◌∷◌, arith,
  Bool-cases, update_where, ◌==◌, Action, modify,
}
use gpt_project_bridge.Base.Steps.{
  IsPreorder, Steps, Steps-pure, Steps-raise, Steps-lift, Steps-gets, Steps-or_raise, Steps-if,
  Steps-transaction, Steps-raise_if, Steps-bind,
}
use gpt_project_bridge.Host.{Host}
use gpt_project_bridge.Storage.Tables.{Db, Env}
use gpt_project_bridge.Storage.Ledger.{Receipt}
use gpt_project_bridge.Registry.Table.{KeyRow, RegistryDb, on_tables, has_id, get_key}
use gpt_project_bridge.Registry.Revoke.{
  Revocation, revoke_row, revoke_state, revoke_tx, revoke_answer, revoke_key,
}
use gpt_project_bridge.Registry.Lineage.{Follows, IsLine, IsKeyring, keys_of}

-- the columns that a revocation does not write
abbrev SameKey : KeyRow → KeyRow → Type 0
SameKey x y =
    (x.key.authority_id ≡ y.key.authority_id)
    × (x.key.key_id ≡ y.key.key_id)
    × (x.key.previous_key_id ≡ y.key.previous_key_id)
    × (x.key.valid_from ≡ y.key.valid_from)
    × (x.key.valid_until ≡ y.key.valid_until)

abbrev Alike : List KeyRow → List KeyRow → Type 0
Alike [] [] = Unit
Alike (x ∷ xs) (y ∷ ys) = SameKey x y × Alike xs ys
Alike _ _ = ⊥

Alike-update :
    (p : KeyRow → Bool) (v : Revocation) (receipt : Receipt) (rows : List KeyRow)
    → Alike rows (update_where p (revoke_row v receipt) rows)
unfolding revoke_row
Alike-update p v receipt [] = tt
Alike-update p v receipt (x ∷ rows) = (
  elim (Bool-cases (p x)) [
    | inl t ↦ rw t (refl, refl, refl, refl, refl)
    | inr f ↦ rw f (refl, refl, refl, refl, refl)
  ],
  Alike-update p v receipt rows,
)

Alike-keys_of :
    (a : String) (xs ys : List KeyRow) → Alike xs ys → Alike (keys_of a xs) (keys_of a ys)
Alike-keys_of a [] [] h = tt
Alike-keys_of a [] (y ∷ ys) h = absurd h
Alike-keys_of a (x ∷ xs) [] h = absurd h
Alike-keys_of a (x ∷ xs) (y ∷ ys) h = elim (Bool-cases (x.key.authority_id == a)) [
  | inl t ↦ rw (t, ap (λ b. b == a) (sym h.0.0) ∙ t) (h.0, Alike-keys_of a xs ys h.1)
  | inr f ↦ rw (f, ap (λ b. b == a) (sym h.0.0) ∙ f) (Alike-keys_of a xs ys h.1)
]

Alike-Follows :
    (x y : KeyRow) (xs ys : List KeyRow) → SameKey x y → Alike xs ys → Follows x xs → Follows y ys
Alike-Follows x y [] [] s h f = tt
Alike-Follows x y [] (v ∷ ys) s h f = absurd h
Alike-Follows x y (u ∷ xs) [] s h f = absurd h
Alike-Follows x y (u ∷ xs) (v ∷ ys) s h f = (
  sym h.0.2 ∙ f.0 ∙ ap (λ (k : String). some k) s.1,
  sym h.0.3 ∙ f.1 ∙ s.4,
  omega (arith, h.0.3, h.0.4),
  Alike-Follows u v xs ys h.0 h.1 f.3,
)

Alike-IsLine : (xs ys : List KeyRow) → Alike xs ys → IsLine xs → IsLine ys
Alike-IsLine [] [] h l = tt
Alike-IsLine [] (y ∷ ys) h l = absurd h
Alike-IsLine (x ∷ xs) [] h l = absurd h
Alike-IsLine (x ∷ xs) (y ∷ ys) h l =
    (sym h.0.2 ∙ l.0, omega (arith, h.0.3, h.0.4), Alike-Follows x y xs ys h.0 h.1 l.2)

pub IsKeyring-update :
    (p : KeyRow → Bool) (v : Revocation) (receipt : Receipt) (rows : List KeyRow)
    → IsKeyring rows
    → IsKeyring (update_where p (revoke_row v receipt) rows)
IsKeyring-update p v receipt rows k = record {
  line = λ a.
      Alike-IsLine (keys_of a rows) (keys_of a (update_where p (revoke_row v receipt) rows))
        (Alike-keys_of a rows _ (Alike-update p v receipt rows)) (k.line a);
}

-- what an action does to the lines
record Keeps (db db' : RegistryDb) : Type 0 where
  apply : IsKeyring db.keys → IsKeyring db'.keys

Keeps-order : IsPreorder Keeps
Keeps-order = record {
  refl_at = λ db. record { apply = λ k. k };
  trans_at = λ s t u f g. record { apply = λ k. g.apply (f.apply k) };
}

Keeps-on_tables : {A : Type 0} (m : Action Db A) → Steps Keeps (on_tables m)
unfolding on_tables
Keeps-on_tables m = record { at = λ db. record { apply = λ k. k } }

Keeps-update :
    (key_id : String) (v : Revocation) (receipt : Receipt)
    → Steps Keeps (
        modify
          (λ db. record db { keys = update_where (has_id key_id) (revoke_row v receipt) db.keys }))
Keeps-update key_id v receipt = record {
  at = λ db. record { apply = IsKeyring-update (has_id key_id) v receipt db.keys };
}

ruleset keeping = (
  Steps-pure, Steps-raise, Steps-lift, Steps-gets, Steps-or_raise, Steps-transaction,
  Steps-raise_if, Steps-bind, Steps-if, Keeps-order, Keeps-on_tables, Keeps-update,
)

module _ (H : Host) (env : Env) (v : Revocation) where
  revoke_state-Keeps : (row : KeyRow) (o : Option ℕ) → Steps Keeps (revoke_state H env v row o)
  unfolding revoke_state
  revoke_state-Keeps row none = search keeping depth 7
  revoke_state-Keeps row (some t) = search keeping

  revoke_tx-Keeps : Steps Keeps (revoke_tx H env v)
  unfolding revoke_tx
  revoke_tx-Keeps = search (keeping, revoke_state-Keeps) depth 9

  revoke_answer-Keeps : (row : KeyRow) (o : Option Receipt) → Steps Keeps (revoke_answer H v row o)
  unfolding revoke_answer get_key
  revoke_answer-Keeps row none = search keeping
  revoke_answer-Keeps row (some receipt) = search keeping depth 7

  revoke_key-Keeps : Steps Keeps (revoke_key H env v)
  unfolding revoke_key
  revoke_key-Keeps = search (keeping, revoke_tx-Keeps, revoke_answer-Keeps) depth 9

  -- Whether it returns or raises, a revocation keeps the lines of keys.
  pub revoke_key-IsKeyring :
      (db : RegistryDb) → IsKeyring db.keys → IsKeyring (revoke_key H env v db).1.keys
  revoke_key-IsKeyring db = (revoke_key-Keeps.at db).apply
