-- ===== src/Organism/Authority.antt =====
-- What `authorize_constraint` of app/organism_loop.py has checked where it returned.
use gpt_project_bridge.Base.{
  String, ◌≡◌, ◌≢◌, refl, sym, ap, ◌∙◌, inl, inr, true, false, some, [], ◌∷◌, ok, arith,
  Result-cases, Option-cases, eq_iff, ◌==◌, subst,
}
use gpt_project_bridge.Base.Dict.{lookup}
use gpt_project_bridge.Base.Text.{join_with}
use gpt_project_bridge.Host.{Host}
use gpt_project_bridge.Core.{Decision, pass, block, hold}
use gpt_project_bridge.Organism.State.{InheritedConstraint, Evaluation, Organism, auth_capability}
use gpt_project_bridge.Organism.Loop.{
  ConstraintCandidate, AuthorizationGrant, is_block, the_evaluation, verify_grant, new_constraint,
  promote, authorize_constraint,
}
use gpt_project_bridge.Organism.Promotion.{
  OnlyEvaluation, the_evaluation-OnlyEvaluation, IsOf, new-IsOf, Promoted, promote-Promoted,
}

-- The grant covers the candidate and is signed with the secret of its principal.
pub record IsGranted (H : Host) (grant : AuthorizationGrant) (candidate : String) (o : Organism)
    : Type 0 where
  pub secret : String
  pub known : lookup grant.principal_id o.authority_secrets ≡ some secret
  pub covers : grant.candidate_id ≡ candidate
  pub capability : grant.capability ≡ auth_capability
  pub signed :
      H.hmac_sha256 secret (join_with "\n" (grant.principal_id ∷ grant.capability ∷ candidate ∷ []))
      ≡ grant.signature

verify_grant-IsGranted :
    (H : Host) (grant : AuthorizationGrant) (candidate : String) (o : Organism) {u : Unit {0}}
    {o' : Organism}
    → verify_grant H grant candidate o ≡ (ok u, o')
    → IsGranted H grant candidate o × (o' ≡ o)
unfolding verify_grant
verify_grant-IsGranted H grant candidate o e =
    elim (Option-cases (lookup grant.principal_id o.authority_secrets)) [
      | inl unknown ↦ absurd (ground arith)
      | inr (secret, known) ↦
          let expected : String =
            H.hmac_sha256 secret
              (join_with "\n" (grant.principal_id ∷ grant.capability ∷ candidate ∷ [])) in
          (
            record {
              secret = secret;
              known = known;
              covers = ground (arith, eq_iff grant.candidate_id candidate);
              capability = ground (arith, eq_iff grant.capability auth_capability);
              signed = ground (arith, eq_iff expected grant.signature);
            },
            ground arith,
          )
    ]

is_block-true : (d : Decision) → is_block d ≡ true → d ≡ block
is_block-true block e = refl
is_block-true pass e = cc e
is_block-true hold e = cc e

new-separated :
    (H : Host) (c : ConstraintCandidate) (grant : AuthorizationGrant) (contract : String)
    → (grant.principal_id == c.generator_id) ≡ false
    → (new_constraint H c grant contract).authorizer_id
      ≢ (new_constraint H c grant contract).generator_id
unfolding new_constraint
new-separated H c grant contract other own =
    cc (other, (eq_iff grant.principal_id c.generator_id).1 own)

-- A promotion that returned had a grant that covers the candidate, signed by a known principal other
-- than the generator; the lineage has the source event in exactly one evaluation, which blocked and
-- has the receipt that the candidate names; the constraint has the candidate's and the grant's fields;
-- and the state has it under its id, every other constraint as it was, and one promotion of it behind
-- the lineage as it was, its identity, secrets, gate and contract unchanged.
pub authorize_constraint_lem :
    (H : Host) (c : ConstraintCandidate) (grant : AuthorizationGrant) (o : Organism)
    {k : InheritedConstraint} {o' : Organism}
    → authorize_constraint H c grant o ≡ (ok k, o')
    → IsGranted H grant c.candidate_id o
      × (k.authorizer_id ≢ k.generator_id)
      × ((source : Evaluation) × OnlyEvaluation c.source_event_id o.lineage source
          × (source.decision ≡ block)
          × (source.receipt_hash ≡ c.source_receipt_hash))
      × IsOf c grant k
      × Promoted k o o'
unfolding authorize_constraint
authorize_constraint_lem H c grant o {k} {o'} e =
    elim (Result-cases (verify_grant H grant c.candidate_id o).0) [
      | inr (x, q) ↦ absurd (ground arith)
      | inl (u, q) ↦
          let (granted, same) =
            verify_grant-IsGranted H grant c.candidate_id o {u = u}
              {o' = (verify_grant H grant c.candidate_id o).1}
              (λ i. (q i, (verify_grant H grant c.candidate_id o).1)) in
          elim (Result-cases (the_evaluation c.source_event_id o)) [
            | inr (x, s) ↦ absurd (ground arith)
            | inl (source, s) ↦
                let other : (grant.principal_id == c.generator_id) ≡ false = ground arith in
                let built : k ≡ new_constraint H c grant o.constitutional_contract_hash =
                  ground arith in
                let is_of =
                  subst (IsOf c grant) (sym built)
                    (new-IsOf H c grant o.constitutional_contract_hash) in
                let moved : o' ≡ promote H c k o = ground arith in
                (
                  granted,
                  (λ own. absurd (
                      new-separated H c grant o.constitutional_contract_hash other (
                        ap (λ (x : InheritedConstraint). x.authorizer_id) (sym built)
                        ∙ own
                        ∙ ap (λ (x : InheritedConstraint). x.generator_id) built))),
                  (
                    source,
                    the_evaluation-OnlyEvaluation c.source_event_id o source s,
                    is_block-true source.decision (ground arith),
                    ground (arith, eq_iff source.receipt_hash c.source_receipt_hash),
                  ),
                  is_of,
                  subst (Promoted k o) (sym moved) (promote-Promoted H c grant k o is_of),
                )
          ]
    ]
