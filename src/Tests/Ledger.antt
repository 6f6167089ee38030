-- ===== src/Tests/Ledger.antt =====
-- The ledger, the contract registry, the nonces and the Merkle root at concrete inputs.
use gpt_project_bridge.Base.{
  ◌+◌, ◌≤◌, String, ◌≡◌, refl, ◌↔◌, ◌⊎◌, true, false, some, List, [], ◌∷◌, ◌++◌, ok, arith, length,
  All, count_of,
}
use gpt_project_bridge.Json.{Fields, str, num, to_fields}
use gpt_project_bridge.Host.{Host, HasDigestLength, stable_hash}
use gpt_project_bridge.Json.Dump.{canonical_json}
use gpt_project_bridge.Storage.Handoffs.{find_handoff}
use gpt_project_bridge.Storage.Mailbox.{acknowledge_model_handoff}
use gpt_project_bridge.Core.{pass, value}
use gpt_project_bridge.Storage.Tables.{Db, Env, LedgerRow, empty}
use gpt_project_bridge.Storage.Ledger.{
  append_event, append_ledger_tx, stamp, link, verify_chain, intact, head, replay, Replayed,
}
use gpt_project_bridge.Storage.Ledger.Chain.{IsChained, verify_chain_iff}
use gpt_project_bridge.Storage.Ledger.Tamper.{
  verify_chain-SameContent, Clash, IsDecided, SameContent,
}
use gpt_project_bridge.Storage.Ledger.Replay.{decided, Reads, replay-Counted}
use gpt_project_bridge.Storage.Calls.{Call, consume_nonce, event, artifact, ack, perform_all}
use gpt_project_bridge.Storage.Calls.Growth.{verify_chain-perform_all}
use gpt_project_bridge.Storage.Nonces.{consume_auth_nonce}
use gpt_project_bridge.Storage.Nonces.Once.{Use, consume_all, consume_auth_nonce-once}
use gpt_project_bridge.Storage.Artifacts.{
  find_artifact, register_contract_artifact, artifact_event, mapping, validate_contract_registry,
}
use gpt_project_bridge.Storage.Artifacts.Registry.{IsBacked, validate_contract_registry_iff}
use gpt_project_bridge.Evidence.{merkle_root}
use gpt_project_bridge.Evidence.Levels.{AreDigests}
use gpt_project_bridge.Evidence.Merkle.{TreeClash, merkle_root-HasRoot, merkle_root-commits}

abbrev pub digest : String
digest = "0123456789abcdef0123456789abcdef0123456789abcdef0123456789abcdef"

abbrev other_digest : String
other_digest = "fedcba9876543210fedcba9876543210fedcba9876543210fedcba9876543210"

-- a host whose digest is one text
abbrev pub constant_host : Host
constant_host = record {
  sha256 = λ s. digest;
  sha256_of_hex = λ s. digest;
  hmac_sha256 = λ k s. digest;
  py_str = λ v. "value";
  json_loads = λ s. some (str s);
}

constant_host-HasDigestLength : HasDigestLength constant_host
constant_host-HasDigestLength s = refl

-- a host whose digest is the text itself
abbrev pub plain_host : Host
plain_host = record {
  sha256 = λ s. s;
  sha256_of_hex = λ s. s;
  hmac_sha256 = λ k s. s;
  py_str = λ v. "value";
  json_loads = λ s. some (str s);
}

abbrev pub env : Env
env = record { now = "2026-01-01T00:00:00+00:00"; build_commit = ""; clock = 100 }

abbrev note : Fields
note = to_fields (("event_type", str "NOTE") ∷ ("n", num 1) ∷ [])

abbrev calls : List (Env × Call)
calls =
    (env, event note "PASS")
    ∷ (env, consume_nonce "gpt" "n-1" 160)
    ∷ (env, artifact "ontology" "1" note "gpt")
    ∷ (env, ack "mh_1" "gpt")
    ∷ (env, event note "HOLD")
    ∷ []

verify_chain-empty : verify_chain plain_host empty ≡ intact 0 (head [])
unfolding verify_chain head
verify_chain-empty = refl

verify_chain-perform_all_example :
    let db' = perform_all plain_host calls empty in
    ((added : List LedgerRow) × (db'.ledger ≡ [] ++ added))
    × (verify_chain plain_host db' ≡ intact (length db'.ledger) (head db'.ledger))
verify_chain-perform_all_example =
    verify_chain-perform_all plain_host calls empty verify_chain-empty

-- three of the five calls write an event
length-calls : length (perform_all plain_host calls empty).ledger ≡ 3
unfolding perform_all append_event append_ledger_tx stamp acknowledge_model_handoff find_handoff
    register_contract_artifact find_artifact consume_auth_nonce artifact_event link head
    canonical_json stable_hash
length-calls = refl

abbrev one_row : Db
one_row = record empty {
  ledger =
      record {
        seq = 1;
        prev_hash = "GENESIS";
        event_hash = digest;
        event_json = "{}";
        decision = "PASS";
      }
      ∷ [];
}

one_row-IsDecided : All IsDecided one_row.ledger
unfolding value
one_row-IsDecided = ((pass, refl), tt)

verify_chain-one_row : verify_chain constant_host one_row ≡ intact 1 digest
unfolding verify_chain link
verify_chain-one_row = refl

verify_chain-SameContent_example :
    SameContent one_row.ledger one_row.ledger ⊎ Clash constant_host one_row.ledger one_row.ledger
verify_chain-SameContent_example =
    verify_chain-SameContent constant_host constant_host-HasDigestLength one_row one_row
      one_row-IsDecided one_row-IsDecided verify_chain-one_row verify_chain-one_row

verify_chain_iff_example :
    (verify_chain constant_host one_row ≡ intact 1 (head one_row.ledger))
    ↔ IsChained constant_host one_row
verify_chain_iff_example = verify_chain_iff constant_host one_row

one_row-Reads : All (Reads constant_host) one_row.ledger
unfolding Reads
one_row-Reads = ((str "{}", refl), tt)

replay-Counted_example :
    (t : Replayed) × (replay constant_host one_row ≡ ok t)
    × (t.accepted ≡ count_of (decided "PASS") one_row.ledger)
    × (t.blocked ≡ count_of (decided "BLOCK") one_row.ledger)
    × (t.accepted + t.blocked + t.held ≡ 1)
replay-Counted_example = replay-Counted constant_host one_row one_row-Reads

abbrev between : List Use
between = record { clock = 130; principal_id = "gpt"; nonce = "n-2"; expires_at = 190 } ∷ []

consumed : (consume_auth_nonce 100 "gpt" "n-1" 160 empty).0 ≡ ok true
unfolding consume_auth_nonce
consumed = refl

early : All (λ (u : Use). u.clock ≤ 160) between
early = (omega arith, tt)

consume_auth_nonce-once_example :
    let db' = consume_all between (consume_auth_nonce 100 "gpt" "n-1" 160 empty).1 in
    consume_auth_nonce 160 "gpt" "n-1" 220 db' ≡ (ok false, db')
consume_auth_nonce-once_example =
    consume_auth_nonce-once "gpt" "n-1" 160 100 empty between 160 220 consumed early (omega arith)

abbrev contract : List (String × String)
contract = ("ontology_hash", digest) ∷ ("policy_hash", digest) ∷ []

validate_contract_registry_iff_example :
    (validate_contract_registry contract one_row ≡ ok tt) ↔ All (IsBacked contract one_row) mapping
validate_contract_registry_iff_example = validate_contract_registry_iff contract one_row

abbrev leaves : List String
leaves = digest ∷ other_digest ∷ digest ∷ []

merkle_root-HasRoot_example : (root : String) × (merkle_root plain_host leaves ≡ some root)
merkle_root-HasRoot_example = merkle_root-HasRoot plain_host leaves

leaves-AreDigests : AreDigests leaves
leaves-AreDigests = (refl, (refl, (refl, tt)))

merkle_root-commits_example : (leaves ≡ leaves) ⊎ TreeClash constant_host 3 leaves leaves
merkle_root-commits_example =
    merkle_root-commits constant_host constant_host-HasDigestLength leaves leaves refl
      leaves-AreDigests leaves-AreDigests refl
