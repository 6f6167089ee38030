-- ===== src/Registry/History.antt =====
-- Any history of registrations and revocations of app/federation_key_registry.py.
use gpt_project_bridge.Base.{
  ℕ, ◌<◌, String, ◌≡◌, sym, inl, inr, true, List, [], ◌∷◌, ok, arith, All, subst,
}
use gpt_project_bridge.Host.{Host}
use gpt_project_bridge.Storage.Tables.{Env}
use gpt_project_bridge.Registry.Keys.{KeyRecord, check_record, effective_at}
use gpt_project_bridge.Registry.Table.{KeyRow, RegistryDb}
use gpt_project_bridge.Registry.Register.{new_row, register_key}
use gpt_project_bridge.Registry.Register.Rotation.{register_key-Registers}
use gpt_project_bridge.Registry.Revoke.{Revocation, revoke_key}
use gpt_project_bridge.Registry.Lineage.{IsKeyring, In, IsKeyring-append}
use gpt_project_bridge.Registry.Lineage.Revoked.{revoke_key-IsKeyring}
use gpt_project_bridge.Registry.Lineage.Force.{effective_at_unique}

pub data KeyCall : Type 0 where
  register : (key : KeyRecord) (actor_id : String) → KeyCall
  revoke : Revocation → KeyCall

unfoldable pub perform : Host → Env → KeyCall → RegistryDb → RegistryDb
perform H env (register key actor_id) db = (register_key H env key actor_id db).1
perform H env (revoke v) db = (revoke_key H env v db).1

unfoldable pub perform_all : Host → List (Env × KeyCall) → RegistryDb → RegistryDb
unfolding perform
perform_all H [] db = db
perform_all H ((env, call) ∷ rest) db = perform_all H rest (perform H env call db)

-- A record that its constructor has let through.
abbrev pub IsBuilt : Host → Env × KeyCall → Type 0
IsBuilt H (env, register key actor_id) = check_record H key ≡ ok tt
IsBuilt H (env, revoke v) = Unit

window :
    (H : Host) (key : KeyRecord) → check_record H key ≡ ok tt → key.valid_from < key.valid_until
unfolding check_record
window H key h = ground arith

register-IsKeyring :
    (H : Host) (env : Env) (key : KeyRecord) (actor_id : String) (db : RegistryDb)
    → check_record H key ≡ ok tt
    → IsKeyring db.keys
    → IsKeyring (register_key H env key actor_id db).1.keys
register-IsKeyring H env key actor_id db built k =
    elim (register_key-Registers H env key actor_id db) [
      | inl same ↦ subst IsKeyring (sym same) k
      | inr (rotates, (receipt, added)) ↦ subst IsKeyring (sym added) (
          IsKeyring-append (new_row H env key actor_id receipt) db.keys k rotates
            (window H key built))
    ]

module _ (H : Host) where
  pub perform_all-IsKeyring :
      (calls : List (Env × KeyCall)) (db : RegistryDb)
      → All (IsBuilt H) calls
      → IsKeyring db.keys
      → IsKeyring (perform_all H calls db).keys
  unfolding perform_all
  perform_all-IsKeyring [] db built k = k
  perform_all-IsKeyring ((env, register key actor_id) ∷ rest) db built k =
      perform_all-IsKeyring rest (register_key H env key actor_id db).1 built.1
        (register-IsKeyring H env key actor_id db built.0 k)
  perform_all-IsKeyring ((env, revoke v) ∷ rest) db built k =
      perform_all-IsKeyring rest (revoke_key H env v db).1 built.1
        (revoke_key-IsKeyring H env v db k)

  -- After any history of registrations and revocations from a table whose keys are in line (the empty
  -- one is), with records that their constructor accepted, an authority has at most one key in force
  -- at any time.
  pub perform_all_unique :
      (calls : List (Env × KeyCall)) (db : RegistryDb) (r s : KeyRow) (t : ℕ)
      → All (IsBuilt H) calls
      → IsKeyring db.keys
      → In r (perform_all H calls db).keys
      → In s (perform_all H calls db).keys
      → r.key.authority_id ≡ s.key.authority_id
      → effective_at r.key t ≡ true
      → effective_at s.key t ≡ true
      → r ≡ s
  perform_all_unique calls db r s t built k m n a er es =
      effective_at_unique (perform_all H calls db).keys r s t
        (perform_all-IsKeyring calls db built k) m n a er es
