-- ===== src/Registry/Lineage.antt =====
-- The invariant of the key table: the keys of an authority form one line, each beginning where the
-- one before it ends, so that no two of them are in force at one time.
pub mod Force
pub mod Revoked
use mathlib.Core.List.{append-nil}
use gpt_project_bridge.Base.{
  ℕ, ◌≤◌, ◌<◌, String, ◌≡◌, refl, sym, ap, ◌∙◌, ◌⊎◌, inl, inr, Bool, true, false, Option, none,
  some, List, [], ◌∷◌, ◌++◌, arith, subst, any_of, find_first, select, select-append, Bool-cases,
  Option-cases, some_inj, eq_refl, eq_iff, opt_str_eq, ◌==◌, if◌then◌else◌,
}
use gpt_project_bridge.Registry.Keys.{KeyRecord}
use gpt_project_bridge.Registry.Table.{KeyRow, has_id, has_authority, succeeds}

-- the keys of an authority, in the order of their registration
abbrev pub keys_of : String → List KeyRow → List KeyRow
keys_of authority_id rows = select (has_authority authority_id) rows

-- each key of the line names the one before it and begins where that one ends
abbrev pub Follows : KeyRow → List KeyRow → Type 0
Follows row [] = Unit
Follows row (next ∷ rest) =
    (next.key.previous_key_id ≡ some row.key.key_id)
    × (next.key.valid_from ≡ row.key.valid_until)
    × (next.key.valid_from < next.key.valid_until)
    × Follows next rest

abbrev pub IsLine : List KeyRow → Type 0
IsLine [] = Unit
IsLine (row ∷ rest) =
    (row.key.previous_key_id ≡ none) × (row.key.valid_from < row.key.valid_until) × Follows row rest

pub record IsKeyring (rows : List KeyRow) : Type 0 where
  pub line : (authority_id : String) → IsLine (keys_of authority_id rows)

-- a row among others
abbrev pub In : KeyRow → List KeyRow → Type 0
In r [] = ⊥
In r (x ∷ xs) = (r ≡ x) ⊎ In r xs

pub find_first-In :
    (p : KeyRow → Bool) (rows : List KeyRow) (r : KeyRow) → find_first p rows ≡ some r → In r rows
find_first-In p [] r e = cc
find_first-In p (x ∷ xs) r e = elim (Bool-cases (p x)) [
  | inl t ↦ inl (sym (some_inj (rw t at e)))
  | inr f ↦ inr (find_first-In p xs r (rw f at e))
]

pub In-select :
    (p : KeyRow → Bool) (rows : List KeyRow) (r : KeyRow)
    → In r rows
    → p r ≡ true
    → In r (select p rows)
In-select p [] r m t = m
In-select p (x ∷ xs) r (inl e) t = rw (ap p (sym e) ∙ t) (inl e)
In-select p (x ∷ xs) r (inr m) t = elim (Bool-cases (p x)) [
  | inl u ↦ rw u (inr (In-select p xs r m t))
  | inr u ↦ rw u (In-select p xs r m t)
]

any_of-select :
    (p q : KeyRow → Bool) (rows : List KeyRow)
    → any_of q rows ≡ false
    → any_of q (select p rows) ≡ false
any_of-select p q [] h = refl
any_of-select p q (x ∷ xs) h = ground (arith, any_of-select p q xs)

-- the last row of a line
abbrev pub last_of : KeyRow → List KeyRow → KeyRow
last_of x [] = x
last_of x (y ∷ rest) = last_of y rest

succeeds_of : (k : String) (row : KeyRow) → row.key.previous_key_id ≡ some k → succeeds k row ≡ true
succeeds_of k row p = rw p (eq_refl k)

-- in a line, a row that nothing succeeds is the last
Follows-last :
    (x : KeyRow) (rest : List KeyRow) (r : KeyRow)
    → Follows x rest
    → In r (x ∷ rest)
    → any_of (succeeds r.key.key_id) rest ≡ false
    → last_of x rest ≡ r
Follows-last x [] r f (inl e) free = sym e
Follows-last x [] r f (inr m) free = absurd m
Follows-last x (y ∷ rest) r f (inl e) free = absurd (
    ground
      (arith, succeeds_of r.key.key_id y (f.0 ∙ ap (λ (q : KeyRow). some q.key.key_id) (sym e))))
Follows-last x (y ∷ rest) r f (inr m) free = Follows-last y rest r f.3 m (ground arith)

Follows-append :
    (x : KeyRow) (rest : List KeyRow) (new : KeyRow)
    → Follows x rest
    → new.key.previous_key_id ≡ some (last_of x rest).key.key_id
    → new.key.valid_from ≡ (last_of x rest).key.valid_until
    → new.key.valid_from < new.key.valid_until
    → Follows x (rest ++ new ∷ [])
Follows-append x [] new f p v w = (p, v, w, tt)
Follows-append x (y ∷ rest) new f p v w = (f.0, f.1, f.2, Follows-append y rest new f.3 p v w)

-- A successor of a row of the line that has none yet goes behind the line.
pub IsLine-append :
    (line : List KeyRow) (r new : KeyRow)
    → IsLine line
    → In r line
    → any_of (succeeds r.key.key_id) line ≡ false
    → new.key.previous_key_id ≡ some r.key.key_id
    → new.key.valid_from ≡ r.key.valid_until
    → new.key.valid_from < new.key.valid_until
    → IsLine (line ++ new ∷ [])
IsLine-append [] r new l m free p v w = absurd m
IsLine-append (x ∷ rest) r new l m free p v w =
    let e = Follows-last x rest r l.2 m (ground arith) in
    (
      l.0,
      l.1,
      Follows-append x rest new l.2 (p ∙ ap (λ (q : KeyRow). some q.key.key_id) (sym e))
          (v ∙ ap (λ (q : KeyRow). q.key.valid_until) (sym e)) w,
    )

any_of-keys_of :
    (a : String) (rows : List KeyRow) → any_of (has_authority a) rows ≡ false → keys_of a rows ≡ []
any_of-keys_of a [] h = refl
any_of-keys_of a (x ∷ rows) h = ground (arith, any_of-keys_of a rows)

-- What `register_key` checks of a new key against the table.
abbrev pub Rotates : KeyRecord → List KeyRow → Type 0
Rotates key rows =
    ((any_of (has_authority key.authority_id) rows ≡ false) × (key.previous_key_id ≡ none))
    ⊎ ((r : KeyRow) × (key.previous_key_id ≡ some r.key.key_id)
        × In r rows
        × (r.key.authority_id ≡ key.authority_id)
        × (r.key.valid_until ≡ key.valid_from)
        × (any_of (succeeds r.key.key_id) rows ≡ false))

own-IsLine :
    (new : KeyRow) (rows : List KeyRow)
    → IsLine (keys_of new.key.authority_id rows)
    → Rotates new.key rows
    → new.key.valid_from < new.key.valid_until
    → IsLine (keys_of new.key.authority_id rows ++ new ∷ [])
own-IsLine new rows l (inl (unknown, first)) w =
    rw (any_of-keys_of new.key.authority_id rows unknown) (first, w, tt)
own-IsLine new rows l (inr (r, p, m, a, v, free)) w =
    IsLine-append (keys_of new.key.authority_id rows) r new l
      (In-select (has_authority new.key.authority_id) rows r m ((eq_iff _ _).1 a))
      (any_of-select (has_authority new.key.authority_id) (succeeds r.key.key_id) rows free) p
      (sym v) w

-- A key that rotates keeps the lines.
pub IsKeyring-append :
    (new : KeyRow) (rows : List KeyRow)
    → IsKeyring rows
    → Rotates new.key rows
    → new.key.valid_from < new.key.valid_until
    → IsKeyring (rows ++ new ∷ [])
IsKeyring-append new rows k c w = record {
  line = λ a.
      simp (select-append (has_authority a) rows (new ∷ []))
        (elim (Bool-cases (new.key.authority_id == a)) [
          | inl own ↦
              let e = (eq_iff new.key.authority_id a).0 own in
              rw own (
                subst (λ b. IsLine (keys_of b rows ++ new ∷ [])) e
                  (own-IsLine new rows (k.line new.key.authority_id) c w))
          | inr other ↦ rw (other, append-nil) (k.line a)
        ]);
}
