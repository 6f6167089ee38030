-- ===== src/Organism/Loop.antt =====
-- The operations of `GovernedOrganism` in app/organism_loop.py. A signature is ASCII text, for which
-- `hmac.compare_digest` compares.
use gpt_project_bridge.Base.{
  String, Bool, false, true, not, ◌||◌, Option, none, some, List, [], ◌∷◌, ◌++◌, Result, ok, err,
  value_error, permission_error, Action, pure, lift, modify, gets, raise_if, or_raise, ◌>>=◌, ◌>>◌,
  ◌==◌, if◌then◌else◌, is_none,
}
use gpt_project_bridge.Base.Dict.{lookup}
use gpt_project_bridge.Base.Text.{join_with}
use gpt_project_bridge.Json.{Fields, end, field, str, obj, to_fields, get, put}
use gpt_project_bridge.Json.Dump.{canonical_json}
use gpt_project_bridge.Host.{Host, stable_hash}
use gpt_project_bridge.Core.{Decision, block}
use gpt_project_bridge.Evidence.{receipt_hash}
use gpt_project_bridge.Organism.State.{
  schema_version, auth_capability, InheritedConstraint, Evaluation, Item, evaluation, promotion,
  Organism, mark_state_mutated,
}

pub record ConstraintCandidate : Type 0 where
  pub candidate_id : String
  pub source_event_id : String
  pub source_receipt_hash : String
  pub generator_id : String
  pub match_json : String
  pub reason : String

pub record AuthorizationGrant : Type 0 where
  pub principal_id : String
  pub capability : String
  pub candidate_id : String
  pub signature : String

pub record LoopResult : Type 0 where
  pub event_id : String
  pub decision : Decision
  pub reason : String
  pub matched_constraint_id : Option String
  pub state_root : String
  pub evidence : Fields

abbrev pub is_block : Decision → Bool
is_block block = true
is_block _ = false

-- an evaluation of the event
unfoldable pub is_evaluation : String → Item → Bool
is_evaluation event_id (evaluation e) = e.event_id == event_id
is_evaluation event_id (promotion p) = false

unfoldable pub evaluations : String → List Item → List Evaluation
evaluations event_id [] = []
evaluations event_id (evaluation e ∷ items) =
    let rest = evaluations event_id items in if e.event_id == event_id then e ∷ rest else rest
evaluations event_id (promotion p ∷ items) = evaluations event_id items

unfoldable pub exactly_one : List Evaluation → Result Evaluation
exactly_one (e ∷ []) = ok e
exactly_one _ = err (value_error "source event must identify exactly one prior evaluation")

-- `_evaluation`
unfoldable pub the_evaluation : String → Organism → Result Evaluation
unfolding exactly_one
the_evaluation event_id o = exactly_one (evaluations event_id o.lineage)

-- `{key: proposal[key] for key in causal_keys if key in proposal}`
causal_match : List String → Fields → Fields → Fields
causal_match [] proposal acc = acc
causal_match (key ∷ rest) proposal acc =
    causal_match rest proposal (elim (get key proposal) [ none ↦ acc | some v ↦ put key v acc ])

unfoldable pub is_empty : Fields → Bool
is_empty end = true
is_empty (field k v fs) = false

module _ (H : Host) where
  unfoldable pub candidate_id : ConstraintCandidate → String
  candidate_id c = stable_hash H (
      obj (
        to_fields (
          ("schema", str schema_version)
          ∷ ("source_event_id", str c.source_event_id)
          ∷ ("source_receipt_hash", str c.source_receipt_hash)
          ∷ ("generator_id", str c.generator_id)
          ∷ ("match_json", str c.match_json)
          ∷ ("reason", str c.reason)
          ∷ [])))

  unfoldable pub observe_rejection :
      String → String → List String → Action Organism ConstraintCandidate
  unfolding causal_match is_empty
  observe_rejection event_id generator_id causal_keys = do
    raise_if (event_id == "" || generator_id == "")
        (value_error "event_id and generator_id are required")
    found ← gets (the_evaluation event_id)
    source ← lift found
    raise_if (not (is_block source.decision))
        (value_error "source event is not a verified BLOCK rejection")
    raise_if (not (is_none source.matched_constraint_id))
        (value_error "an inherited BLOCK cannot recursively seed another constraint")
    raise_if (is_empty (causal_match causal_keys source.proposal end))
        (value_error "causal attribution produced an empty match")
    let draft : ConstraintCandidate = record {
      candidate_id = "";
      source_event_id = event_id;
      source_receipt_hash = source.receipt_hash;
      generator_id = generator_id;
      match_json = canonical_json (obj (causal_match causal_keys source.proposal end));
      reason = source.reason;
    }
    pure (record draft { candidate_id = candidate_id draft })

  -- `_verify_grant`
  unfoldable pub verify_grant : AuthorizationGrant → String → Action Organism (Unit {0})
  verify_grant grant candidate = do
    raise_if (not (grant.capability == auth_capability) || not (grant.candidate_id == candidate))
        (permission_error "authorization grant does not cover this candidate")
    found ← gets (λ o. lookup grant.principal_id o.authority_secrets)
    secret ← or_raise found (permission_error "unknown authorization principal")
    raise_if
        (not (
          H.hmac_sha256 secret
            (join_with "\n" (grant.principal_id ∷ grant.capability ∷ candidate ∷ []))
          == grant.signature))
        (permission_error "invalid authorization grant signature")

  unfoldable pub promotion_core : ConstraintCandidate → AuthorizationGrant → String → Fields
  promotion_core c grant contract = to_fields (
      ("candidate_id", str c.candidate_id)
      ∷ ("source_event_id", str c.source_event_id)
      ∷ ("source_receipt_hash", str c.source_receipt_hash)
      ∷ ("generator_id", str c.generator_id)
      ∷ ("authorizer_id", str grant.principal_id)
      ∷ ("authorization_capability", str grant.capability)
      ∷ ("authorization_signature", str grant.signature)
      ∷ ("match_json", str c.match_json)
      ∷ ("reason", str c.reason)
      ∷ ("constitutional_contract_hash", str contract)
      ∷ [])

  unfoldable pub new_constraint :
      ConstraintCandidate → AuthorizationGrant → String → InheritedConstraint
  unfolding promotion_core
  new_constraint c grant contract =
      let core = promotion_core c grant contract in
      let receipt =
        receipt_hash H "CONSTRAINT_AUTHORIZATION" core
          (to_fields (("decision", str "PROMOTE") ∷ [])) in
      record {
        constraint_id = stable_hash H (obj (put "authority_receipt" (str receipt) core));
        candidate_id = c.candidate_id;
        source_event_id = c.source_event_id;
        source_receipt_hash = c.source_receipt_hash;
        generator_id = c.generator_id;
        authorizer_id = grant.principal_id;
        authorization_capability = grant.capability;
        authorization_signature = grant.signature;
        match_json = c.match_json;
        reason = c.reason;
        authority_receipt = receipt;
      }

  -- `self._constraints[constraint.constraint_id] = constraint`
  unfoldable pub put_constraint :
      InheritedConstraint → List InheritedConstraint → List InheritedConstraint
  put_constraint c [] = c ∷ []
  put_constraint c (d ∷ ds) =
      let rest = put_constraint c ds in
      if d.constraint_id == c.constraint_id then c ∷ ds else d ∷ rest

  unfoldable pub promote : ConstraintCandidate → InheritedConstraint → Organism → Organism
  promote c constraint o = mark_state_mutated (record o {
    constraints = put_constraint constraint o.constraints;
    lineage =
        o.lineage
        ++ promotion (record {
          source_event_id = c.source_event_id;
          source_receipt_hash = c.source_receipt_hash;
          constraint_id = constraint.constraint_id;
          authorizer_id = constraint.authorizer_id;
        })
          ∷ [];
  })

  unfoldable pub authorize_constraint :
      ConstraintCandidate → AuthorizationGrant → Action Organism InheritedConstraint
  authorize_constraint c grant = do
    verify_grant grant c.candidate_id
    raise_if (grant.principal_id == c.generator_id)
        (permission_error "generator cannot authorize its own inherited constraint")
    found ← gets (the_evaluation c.source_event_id)
    source ← lift found
    raise_if (not (is_block source.decision) || not (source.receipt_hash == c.source_receipt_hash))
        (value_error "candidate is not bound to a verified local rejection")
    contract ← gets (λ o. o.constitutional_contract_hash)
    let constraint = new_constraint c grant contract
    modify (promote c constraint)
    pure constraint
