-- ===== src/SecretPlane/Store/Sqlite/Laws.antt =====
-- The store of leases in SQLite (app/secret_plane.py) is a store of leases.
use gpt_project_bridge.Base.{
  ◌+◌, String, ◌≡◌, refl, sym, ap, subst, ◌∙◌, Bool, true, false, not, ◌||◌, Option, none, some, [],
  ◌∷◌, leb, nat_eq, is_none, ok, ◌==◌, if◌then◌else◌, eq_iff, Bool-cases, inl, inr, update_where,
  find_first-eq-some,
}
use gpt_project_bridge.SecretPlane.Data.{Lease}
use gpt_project_bridge.SecretPlane.Store.{
  LeaseState, registered, is_ok, can_use, used, used_unless, use_answer, left_open, after_revoke,
  LeaseStore,
}
use gpt_project_bridge.SecretPlane.Store.Sqlite.{
  LeaseRow, Rows, Connection, lease_row, insert_lease, use_row, consume_row, revoke_rows,
  sqlite_register, sqlite_consume, sqlite_revoke, state_of, of_row, row_view,
}
use gpt_project_bridge.SecretPlane.Store.Sqlite.Register.{
  fixed, insert_lease-ok, row_view-insert_lease,
}

mapped : (LeaseRow → Bool) → (LeaseRow → LeaseRow) → Option LeaseRow → Option LeaseRow
mapped p f none = none
mapped p f (some r) = some (if p r then f r else r)

lease_row-update :
    (p : LeaseRow → Bool) (f : LeaseRow → LeaseRow)
    → ((r : LeaseRow) → (f r).lease_id ≡ r.lease_id)
    → (id : String) (rows : Rows)
    → lease_row id (update_where p f rows) ≡ mapped p f (lease_row id rows)
unfolding lease_row mapped
lease_row-update p f keep id [] = refl
lease_row-update p f keep id (r ∷ rows) =
    let rest = lease_row-update p f keep id rows in
    let same : (if p r then f r else r).lease_id ≡ r.lease_id = if_keeps (p r) in
    let test = ap (λ n. n == id) same in
    elim (Bool-cases (r.lease_id == id)) [
      | inl x ↦ rw (test ∙ x, x) refl
      | inr x ↦ rw (test ∙ x, x) rest
    ]
  where
    if_keeps : (b : Bool) → (if b then f r else r).lease_id ≡ r.lease_id
    if_keeps true = keep r
    if_keeps false = refl

-- one more use of the row that was found
used_row : (l : Lease) (row : LeaseRow) → LeaseRow
used_row l row = record row { uses = row.uses + 1 }

use_row-can_use :
    (l : Lease) (o : Option LeaseRow) (rows : Rows) → (use_row l o rows).0 ≡ can_use l (of_row o)
unfolding use_row
use_row-can_use l none rows = refl
use_row-can_use l (some row) rows =
    elim (Bool-cases (not (nat_eq row.revoked 0) || leb l.max_uses row.uses)) [
      | inl x ↦ rw x refl
      | inr x ↦ rw x refl
    ]

used-blocked : (l : Lease) (o : Option LeaseState) → can_use l o ≡ false → used l o ≡ o
used-blocked l none h = refl
used-blocked l (some st) h = elim (Bool-cases (st.revoked || leb l.max_uses st.uses)) [
  | inl x ↦ rw x refl
  | inr x ↦ absurd (cc (rw x at h))
]

used-free :
    (l : Lease) (st : LeaseState)
    → can_use l (some st) ≡ true
    → used l (some st) ≡ some (record st { uses = st.uses + 1 })
used-free l st h = elim (Bool-cases (st.revoked || leb l.max_uses st.uses)) [
  | inl x ↦ absurd (cc (rw x at h))
  | inr x ↦ rw x refl
]

mapped-other :
    (key id : String) (f : LeaseRow → LeaseRow) (o : Option LeaseRow)
    → ((r : LeaseRow) → o ≡ some r → r.lease_id ≡ id)
    → (key == id) ≡ false
    → mapped (λ r. r.lease_id == key) f o ≡ o
unfolding mapped
mapped-other key id f none at_id h = refl
mapped-other key id f (some r) at_id h = elim (Bool-cases (r.lease_id == key)) [
  | inl x ↦
      absurd (cc (sym ((eq_iff key id).1 (sym ((eq_iff r.lease_id key).0 x) ∙ at_id r refl)) ∙ h))
  | inr x ↦ rw x refl
]

row_id : (id : String) (rows : Rows) (r : LeaseRow) → lease_row id rows ≡ some r → r.lease_id ≡ id
unfolding lease_row
row_id id rows r e = (eq_iff r.lease_id id).0 (find_first-eq-some (λ r. r.lease_id == id) rows r e)

-- the row of another id is not touched, the one that is there is used once
row_view-used :
    (l : Lease) (rows : Rows) (row : LeaseRow) (id : String)
    → lease_row l.lease_id rows ≡ some row
    → can_use l (some (state_of row)) ≡ true
    → row_view (update_where (λ r. r.lease_id == l.lease_id) (used_row l) rows) id
      ≡ (if l.lease_id == id then used l (row_view rows id) else row_view rows id)
unfolding used_row mapped
row_view-used l rows row id e h =
    let update =
      lease_row-update (λ r. r.lease_id == l.lease_id) (used_row l) (λ r. refl) id rows in
    elim (Bool-cases (l.lease_id == id)) [
      | inl x ↦
          let here : lease_row id rows ≡ some row =
            subst (λ n. lease_row n rows ≡ some row) ((eq_iff l.lease_id id).0 x) e in
          rw x (
            ap of_row update
            ∙ rw (here, (eq_iff row.lease_id l.lease_id).1 (row_id l.lease_id rows row e))
                (sym (used-free l (state_of row) h)))
      | inr x ↦ rw x (
          ap of_row (
            update
            ∙ mapped-other l.lease_id id (used_row l) (lease_row id rows) (row_id id rows) x))
    ]

module _ (l : Lease) (rows : Rows) where
  pub consume_row-can_use : (consume_row l rows).0 ≡ can_use l (row_view rows l.lease_id)
  unfolding consume_row
  consume_row-can_use = use_row-can_use l (lease_row l.lease_id rows) rows

  view-use_row :
      (o : Option LeaseRow) (id : String)
      → lease_row l.lease_id rows ≡ o
      → row_view (use_row l o rows).1 id
        ≡ (if l.lease_id == id then used l (row_view rows id) else row_view rows id)
  unfolding use_row used_row
  view-use_row none id e = fixed l.lease_id id rows (used l) (rw e refl)
  view-use_row (some row) id e =
      elim (Bool-cases (not (nat_eq row.revoked 0) || leb l.max_uses row.uses)) [
        | inl x ↦ rw x (fixed l.lease_id id rows (used l) (rw e (rw x refl)))
        | inr x ↦ rw x (row_view-used l rows row id e (rw x refl))
      ]

  pub row_view-consume_row :
      (id : String)
      → row_view (consume_row l rows).1 id
        ≡ (if l.lease_id == id then used l (row_view rows id) else row_view rows id)
  unfolding consume_row
  row_view-consume_row id = view-use_row (lease_row l.lease_id rows) id refl

revoked_row :
    (secret_id : String) (o : Option LeaseRow)
    → of_row (mapped (λ r. r.secret_id == secret_id) (λ r. record r { revoked = 1 }) o)
      ≡ after_revoke secret_id (of_row o)
unfolding mapped
revoked_row secret_id none = refl
revoked_row secret_id (some r) = elim (Bool-cases (r.secret_id == secret_id)) [
  | inl x ↦ rw x refl
  | inr x ↦ rw x refl
]

pub row_view-revoke_rows :
    (secret_id : String) (rows : Rows) (id : String)
    → row_view (revoke_rows secret_id rows) id ≡ after_revoke secret_id (row_view rows id)
unfolding revoke_rows
row_view-revoke_rows secret_id rows id =
    ap of_row (
      lease_row-update (λ r. r.secret_id == secret_id) (λ r. record r { revoked = 1 }) (λ r. refl)
        id rows)
    ∙ revoked_row secret_id (lease_row id rows)

pub row_view-empty : (id : String) → row_view [] id ≡ none
unfolding lease_row
row_view-empty id = refl

-- the methods, in and out of a transaction
pub sqlite_register-ok :
    (l : Lease) (c : Connection)
    → is_ok (sqlite_register l c).0 ≡ is_none (row_view c.rows l.lease_id)
unfolding sqlite_register
sqlite_register-ok l c = insert_lease-ok l c.rows

pub view-sqlite_register :
    (l : Lease) (c : Connection) (id : String)
    → row_view (sqlite_register l c).1.rows id
      ≡ (if l.lease_id == id then registered l (row_view c.rows id) else row_view c.rows id)
unfolding sqlite_register
view-sqlite_register l c id = row_view-insert_lease l c.rows id

not-is_none : (b : Bool) (o : Option LeaseState) → b ≡ is_none o → not b ≡ left_open true o
not-is_none b none e = rw e refl
not-is_none b (some st) e = rw e refl

pub in_transaction-sqlite_register :
    (l : Lease) (c : Connection)
    → (sqlite_register l c).1.in_transaction ≡ left_open true (row_view c.rows l.lease_id)
unfolding sqlite_register
in_transaction-sqlite_register l c =
    not-is_none (is_ok (insert_lease l c.rows).0) (row_view c.rows l.lease_id)
      (insert_lease-ok l c.rows)

pub sqlite_consume-use_answer :
    (l : Lease) (c : Connection)
    → (sqlite_consume l c).0 ≡ use_answer c.in_transaction (can_use l (row_view c.rows l.lease_id))
unfolding sqlite_consume
sqlite_consume-use_answer l c = elim (Bool-cases c.in_transaction) [
  | inl x ↦ rw x refl
  | inr x ↦ rw x (ap ok (consume_row-can_use l c.rows))
]

pub view-sqlite_consume :
    (l : Lease) (c : Connection) (id : String)
    → row_view (sqlite_consume l c).1.rows id ≡ (
        if l.lease_id == id
        then used_unless c.in_transaction l (row_view c.rows id)
        else row_view c.rows id)
unfolding sqlite_consume
view-sqlite_consume l c id = elim (Bool-cases c.in_transaction) [
  | inl x ↦ rw x (elim (Bool-cases (l.lease_id == id)) [ inl y ↦ rw y refl | inr y ↦ rw y refl ])
  | inr x ↦ rw x (row_view-consume_row l c.rows id)
]

pub in_transaction-sqlite_consume :
    (l : Lease) (c : Connection) → (sqlite_consume l c).1.in_transaction ≡ c.in_transaction
unfolding sqlite_consume
in_transaction-sqlite_consume l c = elim (Bool-cases c.in_transaction) [
  | inl x ↦ rw x refl
  | inr x ↦ rw x refl
]

pub view-sqlite_revoke :
    (secret_id : String) (c : Connection) (id : String)
    → row_view (sqlite_revoke secret_id c).rows id ≡ after_revoke secret_id (row_view c.rows id)
unfolding sqlite_revoke
view-sqlite_revoke secret_id c id = row_view-revoke_rows secret_id c.rows id

pub in_transaction-sqlite_revoke :
    (secret_id : String) (c : Connection) → (sqlite_revoke secret_id c).in_transaction ≡ false
unfolding sqlite_revoke
in_transaction-sqlite_revoke secret_id c = refl

abbrev pub sqlite_store : LeaseStore
sqlite_store = record {
  L = Connection;
  empty_store = record { rows = []; in_transaction = false };
  register = sqlite_register;
  consume = sqlite_consume;
  revoke = sqlite_revoke;
  view = λ c id. row_view c.rows id;
  in_transaction = λ c. c.in_transaction;
  refused_leaves = true;
  view-empty = row_view-empty;
  register-ok = sqlite_register-ok;
  view-register = view-sqlite_register;
  consume-answer = sqlite_consume-use_answer;
  view-consume = view-sqlite_consume;
  view-revoke = view-sqlite_revoke;
  in_transaction-empty = refl;
  in_transaction-register = in_transaction-sqlite_register;
  in_transaction-consume = in_transaction-sqlite_consume;
  in_transaction-revoke = in_transaction-sqlite_revoke;
}
