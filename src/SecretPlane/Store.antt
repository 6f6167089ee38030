-- ===== src/SecretPlane/Store.antt =====
-- `LeaseStateStore` of app/secret_plane.py: what a store of the uses of leases does, as an interface of
-- operations and of what they do to the state of each lease.
pub mod Memory
pub mod Sqlite
pub mod Same
use gpt_project_bridge.Base.{
  ℕ, ◌+◌, String, ◌≡◌, refl, ok_inj, arith, Bool, true, false, not, ◌&&◌, ◌||◌, Option, none, some,
  Result, Exn, other_error, ok, err, Action, leb, is_none, ◌==◌, if◌then◌else◌,
}
use gpt_project_bridge.SecretPlane.Data.{Lease}

-- What is kept of a lease.
pub record LeaseState : Type 0 where
  pub secret_id : String
  pub uses : ℕ
  pub revoked : Bool

-- the state of a lease after its registration, its use and the revocation of a secret
abbrev pub registered : Lease → Option LeaseState → Option LeaseState
registered l none = some (record { secret_id = l.secret_id; uses = 0; revoked = false })
registered l (some st) = some st

abbrev pub can_use : Lease → Option LeaseState → Bool
can_use l none = false
can_use l (some st) = not (st.revoked || leb l.max_uses st.uses)

abbrev pub used : Lease → Option LeaseState → Option LeaseState
used l none = none
used l (some st) =
    if st.revoked || leb l.max_uses st.uses
    then some st
    else some (record st { uses = st.uses + 1 })

abbrev pub after_revoke : String → Option LeaseState → Option LeaseState
after_revoke secret_id none = none
after_revoke secret_id (some st) =
    if st.secret_id == secret_id then some (record st { revoked = true }) else some st

abbrev pub is_ok {ℓ} : {A : Type ℓ} → Result A → Bool
is_ok (ok a) = true
is_ok (err e) = false

-- whether a registration leaves a transaction open, in a store where a refused one does
abbrev pub left_open : Bool → Option LeaseState → Bool
left_open refused_leaves none = false
left_open refused_leaves (some st) = refused_leaves

-- `BEGIN IMMEDIATE` raises inside a transaction.
unfoldable pub within_transaction : Exn
within_transaction = other_error "OperationalError: cannot start a transaction within a transaction"

-- the answer to a use, and the state of the lease behind it, by whether a transaction is open
abbrev pub use_answer : Bool → Bool → Result Bool
use_answer true allowed = err within_transaction
use_answer false allowed = ok allowed

abbrev pub used_unless : Bool → Lease → Option LeaseState → Option LeaseState
used_unless true l st = st
used_unless false l st = used l st

pub record LeaseStore : Type 1 where
  pub L : Type 0
  pub empty_store : L
  pub register : Lease → Action L (Unit {0})
  pub consume : Lease → Action L Bool
  pub revoke : String → L → L
  -- the state of a lease by its id
  pub view : L → String → Option LeaseState
  -- whether a transaction was left open, and whether a refused registration leaves one
  pub in_transaction : L → Bool
  pub refused_leaves : Bool
  pub view-empty : (id : String) → view empty_store id ≡ none
  pub register-ok : (l : Lease) (s : L) → is_ok (register l s).0 ≡ is_none (view s l.lease_id)
  pub view-register :
      (l : Lease) (s : L) (id : String)
      → view (register l s).1 id
        ≡ (if l.lease_id == id then registered l (view s id) else view s id)
  pub consume-answer :
      (l : Lease) (s : L)
      → (consume l s).0 ≡ use_answer (in_transaction s) (can_use l (view s l.lease_id))
  pub view-consume :
      (l : Lease) (s : L) (id : String)
      → view (consume l s).1 id
        ≡ (if l.lease_id == id then used_unless (in_transaction s) l (view s id) else view s id)
  pub view-revoke :
      (secret_id : String) (s : L) (id : String)
      → view (revoke secret_id s) id ≡ after_revoke secret_id (view s id)
  pub in_transaction-empty : in_transaction empty_store ≡ false
  pub in_transaction-register :
      (l : Lease) (s : L)
      → in_transaction (register l s).1 ≡ left_open refused_leaves (view s l.lease_id)
  pub in_transaction-consume :
      (l : Lease) (s : L) → in_transaction (consume l s).1 ≡ in_transaction s
  pub in_transaction-revoke :
      (secret_id : String) (s : L) → in_transaction (revoke secret_id s) ≡ false

-- a use that was allowed found no transaction open
pub use_answer-true :
    (b allowed : Bool) → use_answer b allowed ≡ ok true → (b ≡ false) × (allowed ≡ true)
use_answer-true true allowed e = absurd (ground arith)
use_answer-true false allowed e = (refl, ok_inj e)
