-- ===== src/Organism/State.antt =====
-- The state of `GovernedOrganism` in app/organism_loop.py, its payload and its cached root. The clone
-- that a JSON round trip makes of a JSON value is the value: `canonical_json` sorts keys, so that no
-- hash sees their order.
use gpt_project_bridge.Base.{
  ℕ, ◌+◌, String, Option, none, some, List, [], ◌∷◌, Action, pure, modify, gets, ◌>>=◌, ◌>>◌,
  nat_eq, if◌then◌else◌, map,
}
use gpt_project_bridge.Json.{Json, Fields, str, obj, list, opt_str, to_fields}
use gpt_project_bridge.Host.{Host, stable_hash}
use Prim.Native.String.{compare}
use Prim.Native.Nat.{Ordering}
use gpt_project_bridge.Core.{Decision, value}

abbrev pub schema_version : String
schema_version = "matverse.organism-loop.v1"

abbrev pub auth_capability : String
auth_capability = "organism.constraint.authorize"

pub record InheritedConstraint : Type 0 where
  pub constraint_id : String
  pub candidate_id : String
  pub source_event_id : String
  pub source_receipt_hash : String
  pub generator_id : String
  pub authorizer_id : String
  pub authorization_capability : String
  pub authorization_signature : String
  pub match_json : String
  pub reason : String
  pub authority_receipt : String

-- An item of the lineage by its `type`: "EVALUATION" or "CONSTRAINT_PROMOTED".
pub record Evaluation : Type 0 where
  pub event_id : String
  pub runtime_id : String
  pub proposal : Fields
  pub gate_inputs : Fields
  pub decision : Decision
  pub reason : String
  pub matched_constraint_id : Option String
  pub receipt_hash : String

pub record Promotion : Type 0 where
  pub source_event_id : String
  pub source_receipt_hash : String
  pub constraint_id : String
  pub authorizer_id : String

pub data Item : Type 0 where
  evaluation : Evaluation → Item
  promotion : Promotion → Item

-- `_constraints`, a dict by constraint_id, is the list of its values.
pub record Organism : Type 0 where
  pub organism_id : String
  pub runtime_id : String
  pub authority_secrets : List (String × String)
  pub gate_fingerprint : String
  pub constitutional_contract_hash : String
  pub constraints : List InheritedConstraint
  pub lineage : List Item
  pub state_generation : ℕ
  pub cached_state_root : Option String
  -- `none` is the -1 of the beginning
  pub cached_state_generation : Option ℕ

-- `asdict(constraint)`
unfoldable pub constraint_json : InheritedConstraint → Json
constraint_json c = obj (
    to_fields (
      ("constraint_id", str c.constraint_id)
      ∷ ("candidate_id", str c.candidate_id)
      ∷ ("source_event_id", str c.source_event_id)
      ∷ ("source_receipt_hash", str c.source_receipt_hash)
      ∷ ("generator_id", str c.generator_id)
      ∷ ("authorizer_id", str c.authorizer_id)
      ∷ ("authorization_capability", str c.authorization_capability)
      ∷ ("authorization_signature", str c.authorization_signature)
      ∷ ("match_json", str c.match_json)
      ∷ ("reason", str c.reason)
      ∷ ("authority_receipt", str c.authority_receipt)
      ∷ []))

unfoldable pub item_json : Item → Json
item_json (evaluation e) = obj (
    to_fields (
      ("type", str "EVALUATION")
      ∷ ("event_id", str e.event_id)
      ∷ ("runtime_id", str e.runtime_id)
      ∷ ("proposal", obj e.proposal)
      ∷ ("gate_inputs", obj e.gate_inputs)
      ∷ ("decision", str (value e.decision))
      ∷ ("reason", str e.reason)
      ∷ ("matched_constraint_id", opt_str e.matched_constraint_id)
      ∷ ("receipt_hash", str e.receipt_hash)
      ∷ []))
item_json (promotion p) = obj (
    to_fields (
      ("type", str "CONSTRAINT_PROMOTED")
      ∷ ("source_event_id", str p.source_event_id)
      ∷ ("source_receipt_hash", str p.source_receipt_hash)
      ∷ ("constraint_id", str p.constraint_id)
      ∷ ("authorizer_id", str p.authorizer_id)
      ∷ []))

unfoldable pub insert_constraint :
    InheritedConstraint → List InheritedConstraint → List InheritedConstraint
insert_constraint c [] = c ∷ []
insert_constraint c (d ∷ ds) =
    let rest = insert_constraint c ds in
    elim (compare c.constraint_id d.constraint_id) [ Ordering.gt ↦ d ∷ rest | _ ↦ c ∷ d ∷ ds ]

-- `[self._constraints[key] for key in sorted(self._constraints)]`
unfoldable pub sorted_constraints : List InheritedConstraint → List InheritedConstraint
unfolding insert_constraint
sorted_constraints [] = []
sorted_constraints (c ∷ cs) = insert_constraint c (sorted_constraints cs)

unfoldable pub state_payload : Organism → Json
state_payload o = obj (
    to_fields (
      ("schema", str schema_version)
      ∷ ("organism_id", str o.organism_id)
      ∷ ("constitutional_contract_hash", str o.constitutional_contract_hash)
      ∷ ("gate_fingerprint", str o.gate_fingerprint)
      ∷ ("constraints", list (map constraint_json (sorted_constraints o.constraints)))
      ∷ ("lineage", list (map item_json o.lineage))
      ∷ []))

unfoldable pub mark_state_mutated : Organism → Organism
mark_state_mutated o = record o {
  state_generation = o.state_generation + 1;
  cached_state_root = none;
}

-- the cached root, if it is one of this generation
unfoldable pub cached : Option String → Option ℕ → ℕ → Option String
cached none g n = none
cached (some root) none n = none
cached (some root) (some g) n = if nat_eq g n then some root else none

module _ (H : Host) where
  unfoldable pub root_found : Option String → Action Organism String
  root_found (some root) = pure root
  root_found none = do
    root ← gets (λ o. stable_hash H (state_payload o))
    modify (λ o. record o {
      cached_state_root = some root;
      cached_state_generation = some o.state_generation;
    })
    pure root

  unfoldable pub state_root : Action Organism String
  unfolding root_found
  state_root o =
      root_found (cached o.cached_state_root o.cached_state_generation o.state_generation) o
