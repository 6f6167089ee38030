-- ===== src/SecretPlane/Store/Memory.antt =====
-- `InMemoryLeaseStateStore` of app/secret_plane.py.
use gpt_project_bridge.Base.{
  ◌+◌, String, ◌≡◌, refl, sym, ap, ◌∙◌, Bool, true, false, ◌||◌, Option, none, some, List, [], ok,
  err, value_error, Action, leb, is_none, ◌==◌, if◌then◌else◌, eq_iff, Bool-cases, inl, inr,
}
use gpt_project_bridge.Base.Dict.{lookup, set_item, map_items, lookup-set_item, lookup-map_items}
use gpt_project_bridge.SecretPlane.Data.{Lease}
use gpt_project_bridge.SecretPlane.Store.{
  LeaseState, registered, can_use, used, after_revoke, is_ok, LeaseStore, left_open,
}

abbrev pub Leases : Type 0
Leases = List (String × LeaseState)

new_state : Lease → LeaseState
new_state l = record { secret_id = l.secret_id; uses = 0; revoked = false }

put_lease : Lease → Option LeaseState → Action Leases (Unit {0})
unfolding new_state set_item
put_lease l none s = (ok tt, set_item l.lease_id (new_state l) s)
put_lease l (some st) s = (err (value_error "duplicate lease_id"), s)

unfoldable pub memory_register : Lease → Action Leases (Unit {0})
unfolding put_lease
memory_register l s = put_lease l (lookup l.lease_id s) s

use_lease : Lease → Option LeaseState → Action Leases Bool
unfolding set_item
use_lease l none s = (ok false, s)
use_lease l (some st) s =
    if st.revoked || leb l.max_uses st.uses
    then (ok false, s)
    else (ok true, set_item l.lease_id (record st { uses = st.uses + 1 }) s)

unfoldable pub memory_consume : Lease → Action Leases Bool
unfolding use_lease
memory_consume l s = use_lease l (lookup l.lease_id s) s

mark_revoked : String → LeaseState → LeaseState
mark_revoked secret_id st = if st.secret_id == secret_id then record st { revoked = true } else st

unfoldable pub memory_revoke : String → Leases → Leases
unfolding mark_revoked map_items
memory_revoke secret_id s = map_items (mark_revoked secret_id) s

-- a change of the state at one id that leaves the others
if_eq :
    (key id : String) (s : Leases) (f : Option LeaseState → Option LeaseState)
    → (if key == id then f (lookup key s) else lookup id s)
      ≡ (if key == id then f (lookup id s) else lookup id s)
if_eq key id s f = elim (Bool-cases (key == id)) [
  | inl x ↦ rw x (ap (λ n. f (lookup n s)) ((eq_iff key id).0 x))
  | inr x ↦ rw x refl
]

unchanged :
    (key id : String) (s : Leases) (o : Option LeaseState)
    → lookup key s ≡ o
    → lookup id s ≡ (if key == id then o else lookup id s)
unchanged key id s o e = elim (Bool-cases (key == id)) [
  | inl x ↦ rw x (ap (λ n. lookup n s) (sym ((eq_iff key id).0 x)) ∙ e)
  | inr x ↦ rw x refl
]

put_lease-ok :
    (l : Lease) (o : Option LeaseState) (s : Leases) → is_ok (put_lease l o s).0 ≡ is_none o
unfolding put_lease
put_lease-ok l none s = refl
put_lease-ok l (some st) s = refl

view-put_lease :
    (l : Lease) (o : Option LeaseState) (s : Leases) (id : String)
    → lookup l.lease_id s ≡ o
    → lookup id (put_lease l o s).1 ≡ (if l.lease_id == id then registered l o else lookup id s)
unfolding put_lease new_state
view-put_lease l none s id e = lookup-set_item l.lease_id id (new_state l) s
view-put_lease l (some st) s id e = unchanged l.lease_id id s (some st) e

view-use_lease :
    (l : Lease) (o : Option LeaseState) (s : Leases) (id : String)
    → lookup l.lease_id s ≡ o
    → lookup id (use_lease l o s).1 ≡ (if l.lease_id == id then used l o else lookup id s)
unfolding use_lease
view-use_lease l none s id e = unchanged l.lease_id id s none e
view-use_lease l (some st) s id e = elim (Bool-cases (st.revoked || leb l.max_uses st.uses)) [
  | inl x ↦ rw x (unchanged l.lease_id id s (some st) e)
  | inr x ↦ rw x (lookup-set_item l.lease_id id (record st { uses = st.uses + 1 }) s)
]

answer-use_lease :
    (l : Lease) (o : Option LeaseState) (s : Leases) → (use_lease l o s).0 ≡ ok (can_use l o)
unfolding use_lease
answer-use_lease l none s = refl
answer-use_lease l (some st) s = elim (Bool-cases (st.revoked || leb l.max_uses st.uses)) [
  | inl x ↦ rw x refl
  | inr x ↦ rw x refl
]

revoke_view :
    (secret_id : String) (o : Option LeaseState)
    → ◌≡◌ {A = Option LeaseState}
        (elim o [ none ↦ none | some st ↦ some (mark_revoked secret_id st) ])
        (after_revoke secret_id o)
unfolding mark_revoked
revoke_view secret_id none = refl
revoke_view secret_id (some st) = elim (Bool-cases (st.secret_id == secret_id)) [
  | inl x ↦ rw x refl
  | inr x ↦ rw x refl
]

pub memory_register-ok :
    (l : Lease) (s : Leases) → is_ok (memory_register l s).0 ≡ is_none (lookup l.lease_id s)
unfolding memory_register
memory_register-ok l s = put_lease-ok l (lookup l.lease_id s) s

pub lookup-memory_register :
    (l : Lease) (s : Leases) (id : String)
    → lookup id (memory_register l s).1
      ≡ (if l.lease_id == id then registered l (lookup id s) else lookup id s)
unfolding memory_register
lookup-memory_register l s id =
    view-put_lease l (lookup l.lease_id s) s id refl ∙ if_eq l.lease_id id s (registered l)

pub memory_consume-can_use :
    (l : Lease) (s : Leases) → (memory_consume l s).0 ≡ ok (can_use l (lookup l.lease_id s))
unfolding memory_consume
memory_consume-can_use l s = answer-use_lease l (lookup l.lease_id s) s

pub lookup-memory_consume :
    (l : Lease) (s : Leases) (id : String)
    → lookup id (memory_consume l s).1
      ≡ (if l.lease_id == id then used l (lookup id s) else lookup id s)
unfolding memory_consume
lookup-memory_consume l s id =
    view-use_lease l (lookup l.lease_id s) s id refl ∙ if_eq l.lease_id id s (used l)

pub lookup-memory_revoke :
    (secret_id : String) (s : Leases) (id : String)
    → lookup id (memory_revoke secret_id s) ≡ after_revoke secret_id (lookup id s)
unfolding memory_revoke
lookup-memory_revoke secret_id s id =
    lookup-map_items (mark_revoked secret_id) id s ∙ revoke_view secret_id (lookup id s)

pub left_open-false : (o : Option LeaseState) → false ≡ left_open false o
left_open-false none = refl
left_open-false (some st) = refl

abbrev pub memory_store : LeaseStore
memory_store = record {
  L = Leases;
  empty_store = [];
  register = memory_register;
  consume = memory_consume;
  revoke = memory_revoke;
  view = λ s id. lookup id s;
  in_transaction = λ s. false;
  refused_leaves = false;
  view-empty = λ id. refl;
  register-ok = memory_register-ok;
  view-register = lookup-memory_register;
  consume-answer = memory_consume-can_use;
  view-consume = lookup-memory_consume;
  view-revoke = lookup-memory_revoke;
  in_transaction-empty = refl;
  in_transaction-register = λ l s. left_open-false (lookup l.lease_id s);
  in_transaction-consume = λ l s. refl;
  in_transaction-revoke = λ secret_id s. refl;
}
