-- ===== src/Tests/SecretPlane.antt =====
-- Leases of a secret at a concrete plane.
use gpt_project_bridge.Base.{
  ℕ, ◌-◌, ◌≤◌, String, ◌≡◌, refl, true, false, Option, none, some, List, [], ◌∷◌, ◌++◌, ok, arith,
}
use gpt_project_bridge.Base.Text.Ascii.{is_ascii}
use gpt_project_bridge.Json.{Fields}
use gpt_project_bridge.SecretPlane.Data.{Descriptor, active, revoked, test_memory, Policy, Lease}
use gpt_project_bridge.SecretPlane.Store.{LeaseState, is_ok}
use gpt_project_bridge.SecretPlane.Store.Memory.{memory_consume, memory_register, memory_store}
use gpt_project_bridge.SecretPlane.Store.Sqlite.Laws.{sqlite_store}
use gpt_project_bridge.SecretPlane.Store.Same.{
  StoreCall, register_call, consume_call, revoke_call, answers, spec_answers, answers-stores,
}
use gpt_project_bridge.SecretPlane.Material.{read_material, Bytes, memory_vault, text}
use gpt_project_bridge.SecretPlane.Plane.{
  Plane, Wanted, Consumed, returns, expired, register_secret, issue_lease,
}
use gpt_project_bridge.SecretPlane.Use.{verify_lease, take_material, execute_with_secret}
use gpt_project_bridge.SecretPlane.Calls.{
  PlaneCall, executes, call_all, Trail, audit_events-call_all,
}
use gpt_project_bridge.SecretPlane.Uses.{times_out, uses_in, times_out-uses_in}
use gpt_project_bridge.SecretPlane.Ended.{revocation, end_by, take_material-end_by}
use gpt_project_bridge.SecretPlane.Verified.{Executed, execute_with_secret-Executed}
use gpt_project_bridge.SecretPlane.Issued.{Granted, issue_lease-Granted, verify_lease-issue_lease}
use gpt_project_bridge.Tests.Ledger.{constant_host, digest}
use gpt_project_bridge.Base.Dict.{lookup}

abbrev key_descriptor : Descriptor
key_descriptor = record {
  secret_id = "key";
  kind = "api_key";
  owner = "lab";
  purpose = "calls";
  provider = none;
  storage_class = test_memory;
  version = 1;
  created_at = 5;
  expires_at = some 1000;
  rotation_due_at = none;
  state = active;
}

abbrev key_policy : Policy
key_policy = record {
  allowed_actors = "ann" ∷ [];
  allowed_capabilities = "*" ∷ [];
  allowed_scopes = "tests" ∷ [];
  max_ttl_seconds = 60;
  max_uses = 2;
}

abbrev asked : Wanted
asked = record {
  secret_id = "key";
  actor = "ann";
  capability = "call";
  scope = "tests";
  ttl_seconds = none;
  max_uses = none;
}

abbrev sign : String → String
sign message = "signature"

abbrev nonce : String
nonce = "0123456789abcdef"

abbrev start_plane : Plane memory_store memory_vault
start_plane = record {
  descriptors = [];
  policies = [];
  bindings = [];
  audit_events = [];
  leases = [];
  vault = ("place", 1 ∷ 2 ∷ []) ∷ [];
}

abbrev undecoded : Bytes → Option String
undecoded bs = none

abbrev answering : Bytes → Consumed
answering bs = returns (text "done")

abbrev keeping : Plane memory_store memory_vault
keeping =
    (register_secret constant_host sign memory_store memory_vault 10 key_descriptor key_policy
      "place" start_plane).1

abbrev leased : Plane memory_store memory_vault
leased = (issue_lease constant_host sign memory_store memory_vault 20 nonce asked keeping).1

abbrev the_lease : Lease
the_lease = record {
  lease_id = digest;
  secret_id = "key";
  secret_version = 1;
  actor = "ann";
  capability = "call";
  scope = "tests";
  issued_at = 20;
  expires_at = 80;
  max_uses = 2;
  nonce = nonce;
  signature = "signature";
}

issued :
    issue_lease constant_host sign memory_store memory_vault 20 nonce asked keeping
    ≡ (ok the_lease, leased)
unfolding issue_lease register_secret memory_register
issued = refl

issue_lease-Granted_example :
    Granted constant_host sign memory_store memory_vault 20 asked keeping leased the_lease
issue_lease-Granted_example =
    issue_lease-Granted constant_host sign memory_store memory_vault 20 nonce asked keeping leased
      issued

registered_key : lookup "key" keeping.descriptors ≡ some key_descriptor
unfolding register_secret
registered_key = refl

young : expired 30 (some 1000) ≡ false
unfolding expired
young = refl

signs_ascii : is_ascii "signature" ≡ true
unfolding is_ascii
signs_ascii = refl

verify_lease-issue_lease_example :
    verify_lease constant_host sign memory_store memory_vault 30 the_lease leased
    ≡ (ok key_descriptor, leased)
verify_lease-issue_lease_example =
    verify_lease-issue_lease constant_host sign memory_store memory_vault 20 nonce asked keeping
      leased (λ m. signs_ascii) issued 30 (omega arith) key_descriptor registered_key young

executed :
    (execute_with_secret constant_host sign memory_store memory_vault 30 undecoded the_lease
      answering leased).0
    ≡ ok (text "done")
unfolding execute_with_secret issue_lease register_secret memory_register memory_consume
    read_material
executed = refl

execute_with_secret-Executed_example :
    Executed constant_host sign memory_store memory_vault undecoded 30 the_lease answering leased
      (text "done")
execute_with_secret-Executed_example =
    execute_with_secret-Executed constant_host sign memory_store memory_vault undecoded 30 the_lease
      answering leased
      (execute_with_secret constant_host sign memory_store memory_vault 30 undecoded the_lease
        answering leased).1
      (λ i. (
        executed i,
        (execute_with_secret constant_host sign memory_store memory_vault 30 undecoded the_lease
            answering leased).1,
      ))

-- a history in which the lease is used
abbrev history : List (ℕ × PlaneCall)
history =
    (30, executes the_lease answering)
    ∷ (31, executes the_lease answering)
    ∷ (32, executes the_lease answering)
    ∷ []

times_out-uses_in_example :
    times_out constant_host sign undecoded memory_store memory_vault digest 2 history leased
    ≤ 2 - uses_in constant_host sign undecoded memory_store memory_vault leased digest
times_out-uses_in_example =
    times_out-uses_in constant_host sign undecoded memory_store memory_vault digest 2 history leased

audit_events-call_all_example :
    ((more : List Fields) × ((call_all constant_host sign undecoded memory_store memory_vault
          history leased).audit_events
        ≡ leased.audit_events ++ more))
    × Trail constant_host sign undecoded memory_store memory_vault history leased
audit_events-call_all_example =
    audit_events-call_all constant_host sign undecoded memory_store memory_vault history leased

abbrev kept_lease : LeaseState
kept_lease = record { secret_id = "key"; uses = 0; revoked = false }

known_lease : lookup digest leased.leases ≡ some kept_lease
unfolding issue_lease register_secret memory_register
known_lease = refl

registered_still : lookup "key" leased.descriptors ≡ some key_descriptor
unfolding issue_lease register_secret memory_register
registered_still = refl

revoked_key :
    (end_by constant_host sign memory_store memory_vault 40 "key" revocation leased).0
    ≡ ok (record key_descriptor { state = revoked })
unfolding end_by issue_lease register_secret memory_register
revoked_key = refl

take_material-end_by_example :
    is_ok
      (take_material constant_host sign memory_store memory_vault 50 the_lease (
        call_all constant_host sign undecoded memory_store memory_vault history
          (end_by constant_host sign memory_store memory_vault 40 "key" revocation leased).1)).0
    ≡ false
take_material-end_by_example =
    take_material-end_by constant_host sign undecoded memory_store memory_vault 40 "key" revocation
      leased (end_by constant_host sign memory_store memory_vault 40 "key" revocation leased).1
      key_descriptor registered_still refl
      (λ i. (
        revoked_key i,
        (end_by constant_host sign memory_store memory_vault 40 "key" revocation leased).1,
      ))
      the_lease kept_lease known_lease refl history 50

abbrev store_calls : List StoreCall
store_calls =
    register_call the_lease
    ∷ consume_call the_lease
    ∷ consume_call the_lease
    ∷ consume_call the_lease
    ∷ register_call the_lease
    ∷ consume_call the_lease
    ∷ revoke_call "key"
    ∷ consume_call the_lease
    ∷ []

answers-stores_example :
    (answers memory_store store_calls [] ≡ spec_answers false store_calls (λ id. none) false)
    × (answers sqlite_store store_calls (record { rows = []; in_transaction = false })
        ≡ spec_answers true store_calls (λ id. none) false)
answers-stores_example = answers-stores store_calls
