-- ===== src/SecretPlane/Store/Sqlite.antt =====
-- `SQLiteLeaseStateStore` of app/secret_plane.py: the rows of `secret_lease_state`.
pub mod Register
pub mod Laws
use gpt_project_bridge.Base.{
  ℕ, ◌+◌, String, ◌≡◌, refl, sym, ap, subst, ◌∙◌, Bool, true, false, not, ◌||◌, Option, none, some,
  List, [], ◌∷◌, ◌++◌, Result, ok, err, integrity_error, Action, leb, nat_eq, is_none, ◌==◌,
  if◌then◌else◌, eq_iff, Bool-cases, inl, inr, arith, find_first, any_of, update_where,
  find_first-eq-some,
}
use gpt_project_bridge.SecretPlane.Data.{Lease}
use gpt_project_bridge.SecretPlane.Store.{
  LeaseState, registered, can_use, used, after_revoke, is_ok, LeaseStore, within_transaction,
}

pub record LeaseRow : Type 0 where
  pub lease_id : String
  pub secret_id : String
  pub uses : ℕ
  pub revoked : ℕ

abbrev pub Rows : Type 0
Rows = List LeaseRow

unfoldable pub lease_row : String → Rows → Option LeaseRow
lease_row id rows = find_first (λ r. r.lease_id == id) rows

-- the INSERT, which the primary key refuses if the lease is there
unfoldable pub insert_lease : Lease → Action Rows (Unit {0})
insert_lease l rows =
    if any_of (λ r. r.lease_id == l.lease_id) rows
    then (err (integrity_error "UNIQUE constraint failed"), rows)
    else (
      ok tt,
      rows ++ record { lease_id = l.lease_id; secret_id = l.secret_id; uses = 0; revoked = 0 } ∷ [],
    )

unfoldable pub use_row : Lease → Option LeaseRow → Rows → Bool × Rows
use_row l none rows = (false, rows)
use_row l (some row) rows =
    if not (nat_eq row.revoked 0) || leb l.max_uses row.uses then (false, rows) else (
      true,
      update_where (λ r. r.lease_id == l.lease_id) (λ r. record r { uses = r.uses + 1 }) rows,
    )

unfoldable pub consume_row : Lease → Rows → Bool × Rows
unfolding use_row lease_row
consume_row l rows = use_row l (lease_row l.lease_id rows) rows

-- the UPDATE of `revoke_secret`
unfoldable pub revoke_rows : String → Rows → Rows
revoke_rows secret_id rows =
    update_where (λ r. r.secret_id == secret_id) (λ r. record r { revoked = 1 }) rows

-- The connection: the rows, and whether a transaction is open. An INSERT or an UPDATE opens one where
-- there is none, and nothing rolls it back where the INSERT fails.
pub record Connection : Type 0 where
  pub rows : Rows
  pub in_transaction : Bool

unfoldable pub sqlite_register : Lease → Action Connection (Unit {0})
unfolding insert_lease
sqlite_register l c =
    let (r, rows) = insert_lease l c.rows in
    (r, record { rows = rows; in_transaction = not (is_ok r) })

unfoldable pub sqlite_consume : Lease → Action Connection Bool
unfolding consume_row
sqlite_consume l c =
    if c.in_transaction
    then (err within_transaction, c)
    else (let (allowed, rows) = consume_row l c.rows in
        (ok allowed, record { rows = rows; in_transaction = false }))

unfoldable pub sqlite_revoke : String → Connection → Connection
unfolding revoke_rows
sqlite_revoke secret_id c = record { rows = revoke_rows secret_id c.rows; in_transaction = false }

-- a row as the state of a lease
abbrev pub state_of : LeaseRow → LeaseState
state_of r = record { secret_id = r.secret_id; uses = r.uses; revoked = not (nat_eq r.revoked 0) }

abbrev pub of_row : Option LeaseRow → Option LeaseState
of_row none = none
of_row (some r) = some (state_of r)

-- the state of a lease by its id
abbrev pub row_view : Rows → String → Option LeaseState
row_view rows id = of_row (lease_row id rows)
