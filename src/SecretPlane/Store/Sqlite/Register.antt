-- ===== src/SecretPlane/Store/Sqlite/Register.antt =====
-- The registration of a lease in SQLite (app/secret_plane.py).
use gpt_project_bridge.Base.{
  String, ◌≡◌, refl, sym, subst, ◌∙◌, Bool, true, false, not, Option, none, some, [], ◌∷◌, ◌++◌,
  is_none, ◌==◌, if◌then◌else◌, eq_iff, Bool-cases, inl, inr, any_of,
}
use gpt_project_bridge.SecretPlane.Data.{Lease}
use gpt_project_bridge.SecretPlane.Store.{LeaseState, registered, is_ok}
use gpt_project_bridge.SecretPlane.Store.Sqlite.{
  LeaseRow, Rows, lease_row, insert_lease, state_of, row_view,
}

-- where a change leaves the state at its id as it is, all states stay
pub fixed :
    (key id : String) (rows : Rows) (g : Option LeaseState → Option LeaseState)
    → g (row_view rows key) ≡ row_view rows key
    → row_view rows id ≡ (if key == id then g (row_view rows id) else row_view rows id)
fixed key id rows g e = elim (Bool-cases (key == id)) [
  | inl x ↦ rw x (sym (subst (λ n. g (row_view rows n) ≡ row_view rows n) ((eq_iff key id).0 x) e))
  | inr x ↦ rw x refl
]

any_of-row :
    (id : String) (rows : Rows)
    → any_of (λ r. r.lease_id == id) rows ≡ not (is_none (row_view rows id))
unfolding lease_row
any_of-row id [] = refl
any_of-row id (r ∷ rows) = elim (Bool-cases (r.lease_id == id)) [
  | inl x ↦ rw x refl
  | inr x ↦ rw x (any_of-row id rows)
]

or_new : Option LeaseState → Bool → LeaseState → Option LeaseState
or_new none b st = if b then some st else none
or_new (some old) b st = some old

row_view-append :
    (rows : Rows) (r : LeaseRow) (id : String)
    → row_view (rows ++ r ∷ []) id ≡ or_new (row_view rows id) (r.lease_id == id) (state_of r)
unfolding lease_row or_new
row_view-append [] r id = elim (Bool-cases (r.lease_id == id)) [
  | inl x ↦ rw x refl
  | inr x ↦ rw x refl
]
row_view-append (q ∷ rows) r id = elim (Bool-cases (q.lease_id == id)) [
  | inl x ↦ rw x refl
  | inr x ↦ rw x (row_view-append rows r id)
]

registered-some : (l : Lease) (o : Option LeaseState) → is_none o ≡ false → registered l o ≡ o
registered-some l none h = cc h
registered-some l (some st) h = refl

or_new-registered :
    (l : Lease) (o : Option LeaseState) (b : Bool)
    → (b ≡ true → o ≡ none)
    → or_new o b (record { secret_id = l.secret_id; uses = 0; revoked = false })
      ≡ (if b then registered l o else o)
unfolding or_new
or_new-registered l none true h = refl
or_new-registered l none false h = refl
or_new-registered l (some st) true h = refl
or_new-registered l (some st) false h = refl

is_none-eq : {A : Type 0} (o : Option A) → is_none o ≡ true → o ≡ none
is_none-eq none h = refl
is_none-eq (some a) h = cc h

module _ (l : Lease) (rows : Rows) where
  pub insert_lease-ok : is_ok (insert_lease l rows).0 ≡ is_none (row_view rows l.lease_id)
  unfolding insert_lease
  insert_lease-ok =
      let there = any_of-row l.lease_id rows in
      elim (Bool-cases (is_none (row_view rows l.lease_id))) [
        | inl x ↦ rw (there, x) refl
        | inr x ↦ rw (there, x) refl
      ]

  pub row_view-insert_lease :
      (id : String)
      → row_view (insert_lease l rows).1 id
        ≡ (if l.lease_id == id then registered l (row_view rows id) else row_view rows id)
  unfolding insert_lease
  row_view-insert_lease id =
      let there = any_of-row l.lease_id rows in
      elim (Bool-cases (is_none (row_view rows l.lease_id))) [
        | inl x ↦
            rw (there, x)
              (row_view-append rows
                  (record { lease_id = l.lease_id; secret_id = l.secret_id; uses = 0; revoked = 0 })
                  id
                ∙ or_new-registered l (row_view rows id) (l.lease_id == id) (λ y.
                  subst (λ n. row_view rows n ≡ none) ((eq_iff l.lease_id id).0 y)
                    (is_none-eq (row_view rows l.lease_id) x)))
        | inr x ↦
            rw (there, x)
              (fixed l.lease_id id rows (registered l)
                (registered-some l (row_view rows l.lease_id) x))
      ]
