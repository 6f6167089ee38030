-- ===== src/Organism/Promotion.antt =====
-- What a promotion of app/organism_loop.py finds in the lineage and leaves of the state.
use gpt_project_bridge.Base.{
  String, ◌≡◌, refl, sym, ap, ◌∙◌, inl, inr, false, some, [], ◌∷◌, ok, arith, eq_iff, ◌==◌, List,
  ◌++◌, Option, any_of, find_first, Bool-cases, ok_inj, if◌then◌else◌,
}
use gpt_project_bridge.Host.{Host}
use gpt_project_bridge.Organism.State.{
  InheritedConstraint, Evaluation, Item, evaluation, promotion, Organism, mark_state_mutated,
}
use gpt_project_bridge.Organism.Loop.{
  ConstraintCandidate, AuthorizationGrant, the_evaluation, is_evaluation, evaluations, exactly_one,
  new_constraint, put_constraint, promote,
}

-- The lineage has one evaluation of the event, `source`.
pub record OnlyEvaluation (event_id : String) (lineage : List Item) (source : Evaluation)
    : Type 0 where
  pub before : List Item
  pub after : List Item
  pub stands : lineage ≡ before ++ evaluation source ∷ after
  pub event : source.event_id ≡ event_id
  pub none_before : any_of (is_evaluation event_id) before ≡ false
  pub none_after : any_of (is_evaluation event_id) after ≡ false

evaluations-none :
    (event_id : String) (items : List Item)
    → evaluations event_id items ≡ []
    → any_of (is_evaluation event_id) items ≡ false
unfolding evaluations is_evaluation
evaluations-none event_id [] p = refl
evaluations-none event_id (evaluation e ∷ items) p = elim (Bool-cases (e.event_id == event_id)) [
  | inl same ↦ absurd (ground arith)
  | inr other ↦ ground (arith, evaluations-none event_id items)
]
evaluations-none event_id (promotion q ∷ items) p = evaluations-none event_id items p

put_before :
    {event_id : String} {lineage : List Item} {source : Evaluation} (item : Item)
    → is_evaluation event_id item ≡ false
    → OnlyEvaluation event_id lineage source
    → OnlyEvaluation event_id (item ∷ lineage) source
put_before item other only = record {
  before = item ∷ only.before;
  after = only.after;
  stands = ap (λ items. item ∷ items) only.stands;
  event = only.event;
  none_before = rw other only.none_before;
  none_after = only.none_after;
}

evaluations-one :
    (event_id : String) (items : List Item) (source : Evaluation)
    → evaluations event_id items ≡ source ∷ []
    → OnlyEvaluation event_id items source
unfolding evaluations is_evaluation
evaluations-one event_id [] source p = absurd (ground arith)
evaluations-one event_id (evaluation e ∷ items) source p =
    elim (Bool-cases (e.event_id == event_id)) [
      | inl same ↦
          let is : e ≡ source = ground arith in
          record {
            before = [];
            after = items;
            stands = ap (λ x. evaluation x ∷ items) is;
            event =
                sym (ap (λ (x : Evaluation). x.event_id) is) ∙ (eq_iff e.event_id event_id).0 same;
            none_before = refl;
            none_after = evaluations-none event_id items (ground arith);
          }
      | inr other ↦
          put_before (evaluation e) other (evaluations-one event_id items source (ground arith))
    ]
evaluations-one event_id (promotion q ∷ items) source p =
    put_before (promotion q) refl (evaluations-one event_id items source p)

exactly_one_lem :
    (es : List Evaluation) (source : Evaluation) → exactly_one es ≡ ok source → es ≡ source ∷ []
unfolding exactly_one
exactly_one_lem [] source p = absurd (ground arith)
exactly_one_lem (e ∷ []) source p = ap (λ x. x ∷ []) (ok_inj p)
exactly_one_lem (e ∷ d ∷ es) source p = absurd (ground arith)

pub the_evaluation-OnlyEvaluation :
    (event_id : String) (o : Organism) (source : Evaluation)
    → the_evaluation event_id o ≡ ok source
    → OnlyEvaluation event_id o.lineage source
unfolding the_evaluation
the_evaluation-OnlyEvaluation event_id o source p =
    evaluations-one event_id o.lineage source
      (exactly_one_lem (evaluations event_id o.lineage) source p)

-- The constraint of that id.
abbrev pub constraint_at : String → List InheritedConstraint → Option InheritedConstraint
constraint_at id = find_first (λ (d : InheritedConstraint). d.constraint_id == id)

put_constraint_lem :
    (H : Host) (k : InheritedConstraint) (cs : List InheritedConstraint) (id : String)
    → constraint_at id (put_constraint H k cs)
      ≡ (if k.constraint_id == id then some k else constraint_at id cs)
unfolding put_constraint
put_constraint_lem H k [] id = refl
put_constraint_lem H k (d ∷ ds) id = elim (Bool-cases (d.constraint_id == k.constraint_id)) [
  | inl same ↦ elim (Bool-cases (k.constraint_id == id)) [
    | inl hit ↦ rw (same, hit) refl
    | inr miss ↦
        let far : (d.constraint_id == id) ≡ false =
          rw ((eq_iff d.constraint_id k.constraint_id).0 same) miss in
        rw (same, miss, far) refl
  ]
  | inr differ ↦ elim (Bool-cases (k.constraint_id == id)) [
    | inl hit ↦
        let far : (d.constraint_id == id) ≡ false =
          rw (sym ((eq_iff k.constraint_id id).0 hit)) differ in
        rw (differ, far, put_constraint_lem H k ds id, hit) refl
    | inr miss ↦ rw (differ, put_constraint_lem H k ds id, miss) refl
  ]
]

-- The constraint is the candidate's, under the grant.
pub record IsOf (c : ConstraintCandidate) (grant : AuthorizationGrant) (k : InheritedConstraint)
    : Type 0 where
  pub candidate : k.candidate_id ≡ c.candidate_id
  pub source_event : k.source_event_id ≡ c.source_event_id
  pub source_receipt : k.source_receipt_hash ≡ c.source_receipt_hash
  pub generator : k.generator_id ≡ c.generator_id
  pub authorizer : k.authorizer_id ≡ grant.principal_id
  pub capability : k.authorization_capability ≡ grant.capability
  pub signature : k.authorization_signature ≡ grant.signature
  pub match : k.match_json ≡ c.match_json
  pub reason : k.reason ≡ c.reason

pub new-IsOf :
    (H : Host) (c : ConstraintCandidate) (grant : AuthorizationGrant) (contract : String)
    → IsOf c grant (new_constraint H c grant contract)
unfolding new_constraint
new-IsOf H c grant contract = record {
  candidate = refl;
  source_event = refl;
  source_receipt = refl;
  generator = refl;
  authorizer = refl;
  capability = refl;
  signature = refl;
  match = refl;
  reason = refl;
}

-- The state has the constraint under its id, the other ones as they were, and one more item of the
-- lineage; who the organism is and whom it trusts is left.
pub record Promoted (k : InheritedConstraint) (o o' : Organism) : Type 0 where
  pub found :
      (id : String)
      → constraint_at id o'.constraints
        ≡ (if k.constraint_id == id then some k else constraint_at id o.constraints)
  pub lineage :
      o'.lineage
      ≡ o.lineage
        ++ promotion (record {
          source_event_id = k.source_event_id;
          source_receipt_hash = k.source_receipt_hash;
          constraint_id = k.constraint_id;
          authorizer_id = k.authorizer_id;
        })
          ∷ []
  pub organism : o'.organism_id ≡ o.organism_id
  pub runtime : o'.runtime_id ≡ o.runtime_id
  pub secrets : o'.authority_secrets ≡ o.authority_secrets
  pub gate : o'.gate_fingerprint ≡ o.gate_fingerprint
  pub contract : o'.constitutional_contract_hash ≡ o.constitutional_contract_hash

pub promote-Promoted :
    (H : Host) (c : ConstraintCandidate) (grant : AuthorizationGrant) (k : InheritedConstraint)
    (o : Organism)
    → IsOf c grant k
    → Promoted k o (promote H c k o)
unfolding promote mark_state_mutated
promote-Promoted H c grant k o is_of = record {
  found = put_constraint_lem H k o.constraints;
  lineage = λ i.
      o.lineage
      ++ promotion (record {
        source_event_id = sym is_of.source_event i;
        source_receipt_hash = sym is_of.source_receipt i;
        constraint_id = k.constraint_id;
        authorizer_id = k.authorizer_id;
      })
        ∷ [];
  organism = refl;
  runtime = refl;
  secrets = refl;
  gate = refl;
  contract = refl;
}
