-- ===== src/SecretPlane/Store/Same.antt =====
-- The two stores of leases of app/secret_plane.py answer alike, but for the transaction that a refused
-- registration leaves open in SQLite.
use gpt_project_bridge.Base.{
  String, ◌≡◌, refl, ◌∙◌, Bool, false, true, List, [], ◌∷◌, Option, none, some, Result, ok, err,
  is_none, ◌==◌, if◌then◌else◌,
}
use gpt_project_bridge.SecretPlane.Data.{Lease}
use gpt_project_bridge.SecretPlane.Store.Memory.{memory_store}
use gpt_project_bridge.SecretPlane.Store.Sqlite.Laws.{sqlite_store}
use gpt_project_bridge.SecretPlane.Store.{
  LeaseState, registered, can_use, used_unless, use_answer, left_open, after_revoke, is_ok,
  LeaseStore,
}

-- the calls of a store
pub data StoreCall : Type 0 where
  register_call : Lease → StoreCall
  consume_call : Lease → StoreCall
  revoke_call : String → StoreCall

-- what a call said: `none` where it raised
unfoldable said : Result Bool → Option Bool
said (ok b) = some b
said (err e) = none

module _ (S : LeaseStore) where
  -- whether a registration is accepted, and whether a use is allowed if the call returns; a revocation
  -- has no answer
  unfoldable pub answers : List StoreCall → S.L → List (Option Bool)
  unfolding said
  answers [] s = []
  answers (register_call l ∷ cs) s = some (is_ok (S.register l s).0) ∷ answers cs (S.register l s).1
  answers (consume_call l ∷ cs) s = said (S.consume l s).0 ∷ answers cs (S.consume l s).1
  answers (revoke_call secret_id ∷ cs) s = answers cs (S.revoke secret_id s)

-- the specification: what is kept of each lease, as a function of its id
abbrev Spec : Type 0
Spec = String → Option LeaseState

-- `blocked` says whether uses raise, `blocks` whether a refused registration makes them raise
unfoldable pub spec_answers : (blocks : Bool) → List StoreCall → Spec → Bool → List (Option Bool)
unfolding said
spec_answers blocks [] v blocked = []
spec_answers blocks (register_call l ∷ cs) v blocked =
    some (is_none (v l.lease_id))
    ∷ spec_answers blocks cs (λ id. if l.lease_id == id then registered l (v id) else v id)
        (left_open blocks (v l.lease_id))
spec_answers blocks (consume_call l ∷ cs) v blocked =
    said (use_answer blocked (can_use l (v l.lease_id)))
    ∷ spec_answers blocks cs (λ id. if l.lease_id == id then used_unless blocked l (v id) else v id)
        blocked
spec_answers blocks (revoke_call secret_id ∷ cs) v blocked =
    spec_answers blocks cs (λ id. after_revoke secret_id (v id)) false

module _ (S : LeaseStore) where
  answers-spec_answers :
      (cs : List StoreCall) (s : S.L)
      → answers S cs s ≡ spec_answers S.refused_leaves cs (S.view s) (S.in_transaction s)
  unfolding answers spec_answers
  answers-spec_answers [] s = refl
  answers-spec_answers (register_call l ∷ cs) s =
      let rest = answers-spec_answers cs (S.register l s).1 ∙ (λ i.
        spec_answers S.refused_leaves cs (λ id. S.view-register l s id i)
          (S.in_transaction-register l s i)) in
      λ i. some (S.register-ok l s i) ∷ rest i
  answers-spec_answers (consume_call l ∷ cs) s =
      let rest = answers-spec_answers cs (S.consume l s).1 ∙ (λ i.
        spec_answers S.refused_leaves cs (λ id. S.view-consume l s id i)
          (S.in_transaction-consume l s i)) in
      λ i. said (S.consume-answer l s i) ∷ rest i
  answers-spec_answers (revoke_call secret_id ∷ cs) s =
      answers-spec_answers cs (S.revoke secret_id s) ∙ (λ i.
        spec_answers S.refused_leaves cs (λ id. S.view-revoke secret_id s id i)
          (S.in_transaction-revoke secret_id s i))

  answers-empty :
      (cs : List StoreCall)
      → answers S cs S.empty_store ≡ spec_answers S.refused_leaves cs (λ id. none) false
  answers-empty cs =
      answers-spec_answers cs S.empty_store
      ∙ (λ i. spec_answers S.refused_leaves cs (λ id. S.view-empty id i) (S.in_transaction-empty i))

-- The store in memory and the store in SQLite answer every sequence of calls as a specification does
-- that keeps, for each lease, its secret, the number of its uses and whether it was revoked; in SQLite,
-- but not in memory, every use behind a refused registration raises, up to the next registration that
-- is accepted or the next revocation.
pub answers-stores :
    (cs : List StoreCall)
    → (answers memory_store cs [] ≡ spec_answers false cs (λ id. none) false)
      × (answers sqlite_store cs (record { rows = []; in_transaction = false })
          ≡ spec_answers true cs (λ id. none) false)
answers-stores cs = (answers-empty memory_store cs, answers-empty sqlite_store cs)
