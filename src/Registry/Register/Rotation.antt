-- ===== src/Registry/Register/Rotation.antt =====
-- What `register_key` of app/federation_key_registry.py does to the key table, on every path.
use gpt_project_bridge.Base.{
  String, ◌≡◌, refl, sym, ap, ◌∙◌, ◌⊎◌, inl, inr, Bool, true, false, Option, none, some, List, [],
  ◌∷◌, ◌++◌, ok, arith, Result-cases, Option-cases, Bool-cases, any_of, find_first-eq-some, eq_iff,
  is_none, subst, Action,
}
use gpt_project_bridge.Host.{Host}
use gpt_project_bridge.Storage.Tables.{Env}
use gpt_project_bridge.Storage.Ledger.{Receipt, append_ledger_tx}
use gpt_project_bridge.Registry.Keys.{KeyRecord, require_text}
use gpt_project_bridge.Registry.Table.{
  KeyRow, RegistryDb, on_tables, row_to_key, has_id, has_authority, succeeds, find_key, insert_key,
}
use gpt_project_bridge.Registry.Register.{
  Registered, registration_event, check_successor, check_rotation, check_new, new_row, store_key,
  register_found, register_tx, register_key,
}
use gpt_project_bridge.Registry.Lineage.{In, find_first-In, Rotates}

check_successor-ok :
    (r : KeyRecord) (p : String) (db : RegistryDb)
    → (check_successor r p db).0 ≡ ok tt
    → ((row : KeyRow) × (p ≡ row.key.key_id)
        × In row db.keys
        × (row.key.authority_id ≡ r.authority_id)
        × (row.key.valid_until ≡ r.valid_from)
        × (any_of (succeeds row.key.key_id) db.keys ≡ false))
      × ((check_successor r p db).1 ≡ db)
unfolding check_successor find_key
check_successor-ok r p db e = elim (Option-cases (find_key p db.keys)) [
  | inl gone ↦ absurd (ground arith)
  | inr (row, here) ↦
      let same = (eq_iff row.key.key_id p).0 (find_first-eq-some (has_id p) db.keys row here) in
      (
        (
          row,
          sym same,
          find_first-In (has_id p) db.keys row here,
          ground (arith, eq_iff row.key.authority_id r.authority_id),
          ground arith,
          rw same (ground arith),
        ),
        ground arith,
      )
]

check_rotation-ok :
    (r : KeyRecord) (known : Bool) (previous : Option String) (db : RegistryDb)
    → any_of (has_authority r.authority_id) db.keys ≡ known
    → r.previous_key_id ≡ previous
    → (check_rotation r known previous db).0 ≡ ok tt
    → Rotates r db.keys × ((check_rotation r known previous db).1 ≡ db)
unfolding check_rotation
check_rotation-ok r false none db k p e = (inl (k, p), refl)
check_rotation-ok r false (some q) db k p e = absurd (ground arith)
check_rotation-ok r true none db k p e = absurd (ground arith)
check_rotation-ok r true (some q) db k p e =
    let ((row, same, m, a, v, free), unchanged) = check_successor-ok r q db e in
    (inr (row, p ∙ ap (λ (x : String). some x) same, m, a, v, free), unchanged)

check_new-Rotates :
    (r : KeyRecord) (db : RegistryDb)
    → (check_new r db).0 ≡ ok tt
    → Rotates r db.keys × ((check_new r db).1 ≡ db)
unfolding check_new
check_new-Rotates r db e =
    let rotation : Action RegistryDb (Unit {0}) =
      check_rotation r (any_of (has_authority r.authority_id) db.keys) r.previous_key_id in
    elim (Result-cases (rotation db).0) [
      | inr (x, q) ↦ absurd (ground arith)
      | inl (u, q) ↦
          let (rotates, unchanged) =
            check_rotation-ok r (any_of (has_authority r.authority_id) db.keys) r.previous_key_id db
              refl refl q in
          (rotates, ground arith)
    ]

-- What a new key adds.
store_key-ok :
    (H : Host) (env : Env) (r : KeyRecord) (actor_id : String) (db : RegistryDb) {x : Registered}
    → (store_key H env r actor_id db).0 ≡ ok x
    → (receipt : Receipt) × ((store_key H env r actor_id db).1.keys
        ≡ db.keys ++ new_row H env r actor_id receipt ∷ [])
unfolding store_key insert_key on_tables
store_key-ok H env r actor_id db e =
    elim (Result-cases
      (append_ledger_tx H env (registration_event H env r actor_id) "PASS" db.tables).0) [
        | inr (x, q) ↦ absurd (ground arith)
        | inl (receipt, q) ↦ (receipt, ground arith)
      ]

-- How the table can look after a registration.
abbrev pub Registers : Host → Env → KeyRecord → String → List KeyRow → List KeyRow → Type 0
Registers H env r actor_id before after =
    (after ≡ before)
    ⊎ (Rotates r before
        × ((receipt : Receipt) × (after ≡ before ++ new_row H env r actor_id receipt ∷ [])))

register_tx-ok :
    (H : Host) (env : Env) (r : KeyRecord) (actor_id : String) (db : RegistryDb) {x : Registered}
    → (register_tx H env r actor_id db).0 ≡ ok x
    → Registers H env r actor_id db.keys (register_tx H env r actor_id db).1.keys
unfolding register_tx register_found
register_tx-ok H env r actor_id db e = elim (Option-cases (find_key r.key_id db.keys)) [
  | inr (row, here) ↦ inl (elim (Result-cases (row_to_key H row)) [
    | inr (x, q) ↦ absurd (ground arith)
    | inl (stored, q) ↦ ground arith
  ])
  | inl fresh ↦ elim (Result-cases (check_new r db).0) [
    | inr (x, q) ↦ absurd (ground arith)
    | inl (u, q) ↦
        let (rotates, unchanged) = check_new-Rotates r db q in
        elim (Result-cases (store_key H env r actor_id db).0) [
          | inr (x, p) ↦ absurd (ground arith)
          | inl (x, p) ↦
              let (receipt, keys) = store_key-ok H env r actor_id db p in
              inr (rotates, (receipt, ground arith))
        ]
  ]
]

-- Whatever comes of a registration, the key table is as before, or the key rotates correctly and
-- stands behind the others.
pub register_key-Registers :
    (H : Host) (env : Env) (r : KeyRecord) (actor_id : String) (db : RegistryDb)
    → Registers H env r actor_id db.keys (register_key H env r actor_id db).1.keys
unfolding register_key
register_key-Registers H env r actor_id db = elim (Bool-cases (is_none r.revoked_at)) [
  | inr revoked ↦ inl (ground arith)
  | inl fresh ↦ elim (Result-cases (require_text actor_id "actor_id")) [
    | inr (x, q) ↦ inl (ground arith)
    | inl (u, q) ↦ elim (Result-cases (register_tx H env r actor_id db).0) [
      | inr (x, p) ↦ inl (ground arith)
      | inl (x, p) ↦
          subst (Registers H env r actor_id db.keys) (ground arith)
            (register_tx-ok H env r actor_id db p)
    ]
  ]
]
