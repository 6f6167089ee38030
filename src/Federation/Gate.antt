-- ===== src/Federation/Gate.antt =====
-- `sign_relation` and `RelationIntegrityGate` of app/federation_relation.py. The digests that the gate
-- compares are hexadecimal; the secrets need not be ASCII.
pub mod Admitted
pub mod Signed
use gpt_project_bridge.Base.{
  ℕ, String, ◌<>◌, Bool, true, false, not, ◌&&◌, Option, none, some, List, [], ◌∷◌, ◌++◌, Result,
  ok, err, value_error, ◌&>◌, require, ltb, leb, any_of, all_of, is_none, ◌==◌, if◌then◌else◌, when,
}
use gpt_project_bridge.Base.Dict.{lookup}
use gpt_project_bridge.Base.Text.{has_text}
use gpt_project_bridge.Host.{Host, compare_digest}
use gpt_project_bridge.Registry.Keys.{require_text}
use gpt_project_bridge.Federation.Relation.{
  RelationStatus, active, revoked, status_value, RelationWitness, check_witness, Witness,
  hmac_witness, foreign, Relation, check_relation, payload_digest, Request, RelationDecision,
  hmac_shared_secret_scheme,
}

-- `and_then` of a value that may be missing because of a raise
abbrev then_with : {A B : Type 0} → Result A → (A → Result B) → Result B
then_with (ok a) f = f a
then_with (err e) f = err e

-- what is hashed under a secret, without the check of the secret
unfoldable pub relation_hmac : Host → String → String → String → String
relation_hmac H secret relation_sha256 role =
    H.hmac_sha256 secret ("matverse.federation-relation.v1\n" <> role <> "\n" <> relation_sha256)

-- the witness that both secrets give
unfoldable pub witness_of : Host → String → String → String → RelationWitness
unfolding relation_hmac
witness_of H source_secret target_secret digest = record {
  scheme = hmac_shared_secret_scheme;
  payload_sha256 = digest;
  source_hmac_sha256 = relation_hmac H source_secret digest "source";
  target_hmac_sha256 = relation_hmac H target_secret digest "target";
}

-- what is behind the checks of the arguments; `replace` builds the relation anew
unfoldable pub attach : Host → String → String → Relation → Result Relation
unfolding witness_of check_witness check_relation payload_digest
attach H source_secret target_secret r =
    let w = witness_of H source_secret target_secret (payload_digest H r) in
    let signed = record r { witness = some (hmac_witness w) } in
    check_witness w &> check_relation signed &> ok signed

unfoldable pub sign_relation : Host → String → String → Relation → Result Relation
unfolding attach require_text compare_digest
sign_relation H source_secret target_secret r =
    require (is_none r.witness) (value_error "relation is already witnessed")
    &> require (r.witness_scheme == hmac_shared_secret_scheme)
        (value_error ("unsupported witness scheme: " <> r.witness_scheme))
    &> require_text source_secret "source_secret"
    &> require_text target_secret "target_secret"
    &> then_with (compare_digest source_secret target_secret) (λ same.
      require (not same) (value_error "source and target authority secrets must be distinct")
      &> attach H source_secret target_secret r)

-- `secret` of `.get(authority)` where `if secret` holds
unfoldable pub usable : Option String → Option String
usable none = none
usable (some s) = if s == "" then none else some s

unfoldable pub check_secrets : List (String × String) → Result (Unit {0})
check_secrets secrets =
    require (all_of (λ kv. not (kv.0 == "")) secrets)
      (value_error "authority ids must be non-empty strings")
    &> require (all_of (λ kv. not (kv.1 == "")) secrets)
        (value_error "authority secrets must be non-empty strings")

unfoldable pub status_reasons : RelationStatus → List String
status_reasons active = []
status_reasons revoked = "status:REVOKED" ∷ []

-- the reasons that do not concern the witness
unfoldable pub scope_reasons : ℕ → Relation → Request → List String
unfolding status_reasons
scope_reasons now r q =
    status_reasons r.status
    ++ (when (not (q.source_domain == r.source_domain)) "source_domain_mismatch"
        ++ (when (not (q.target_domain == r.target_domain)) "target_domain_mismatch"
            ++ (when (not (q.contract_hash == r.contract_hash)) "contract_hash_mismatch"
                ++ (when (not (any_of (λ c. c == q.capability) r.capabilities))
                      "capability_out_of_scope"
                    ++ (when (ltb now r.valid_from) "relation_not_yet_valid"
                        ++ (when (leb r.valid_until now) "relation_expired"
                            ++ when (not (r.witness_scheme == hmac_shared_secret_scheme))
                                "unsupported_witness_scheme"))))))

-- `shared_authority_secret`
unfoldable pub shared_reasons : Option String → Option String → Result (List String)
unfolding compare_digest
shared_reasons (some s) (some t) =
    then_with (compare_digest s t) (λ same. ok (when same "shared_authority_secret"))
shared_reasons _ _ = ok []

-- one side's part of the witness
unfoldable pub side_reasons : Host → String → String → String → Option String → String → List String
unfolding relation_hmac
side_reasons H digest role reason none given = []
side_reasons H digest role reason (some secret) given =
    when (not (relation_hmac H secret digest role == given)) reason

unfoldable pub witness_reasons :
    Host → (source target : Option String) → Relation → Option Witness → Result (List String)
unfolding payload_digest shared_reasons side_reasons
witness_reasons H source target r none = ok ("missing_bilateral_witness" ∷ [])
witness_reasons H source target r (some (foreign _ _)) = ok ("witness_type_mismatch" ∷ [])
witness_reasons H source target r (some (hmac_witness w)) =
    let digest = payload_digest H r in
    then_with (shared_reasons source target) (λ shared. ok (
      when (not (w.scheme == r.witness_scheme)) "witness_scheme_mismatch"
      ++ (when (not (w.payload_sha256 == digest)) "witness_payload_hash_mismatch"
          ++ (when (is_none source) "unknown_source_authority"
              ++ (when (is_none target) "unknown_target_authority"
                  ++ (shared
                      ++ (side_reasons H digest "source" "invalid_source_witness" source
                            w.source_hmac_sha256
                          ++ side_reasons H digest "target" "invalid_target_witness" target
                              w.target_hmac_sha256)))))))

abbrev pub none_of : List String → Bool
none_of [] = true
none_of (s ∷ r) = false

-- the decision, by the reasons that concern the witness
unfoldable pub decision : Host → ℕ → Relation → Request → List String → RelationDecision
unfolding scope_reasons payload_digest
decision H now r q witness =
    let reasons = scope_reasons now r q ++ witness in
    record {
      relation_id = r.relation_id;
      admissible = none_of reasons;
      reasons = reasons;
      relation_sha256 = payload_digest H r;
      evaluated_at = now;
    }

-- `evaluate`, by the gate's secrets and the time
unfoldable pub evaluate :
    Host → List (String × String) → ℕ → Relation → Request → Result RelationDecision
unfolding witness_reasons usable decision
evaluate H secrets now r q =
    let source = usable (lookup r.source_authority secrets) in
    let target = usable (lookup r.target_authority secrets) in
    then_with (witness_reasons H source target r r.witness)
      (λ witness. ok (decision H now r q witness))
