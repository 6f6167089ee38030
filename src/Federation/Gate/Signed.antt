-- ===== src/Federation/Gate/Signed.antt =====
-- A relation that `sign_relation` of app/federation_relation.py has signed passes the gate.
use gpt_project_bridge.Base.{
  ok_inj, ℕ, String, ◌≡◌, refl, sym, subst, ap, ◌∙◌, Bool, true, false, not, some, List, Result, ok,
  err, Exn, is_none, ◌&>◌, require, ◌==◌, eq_iff, Result-cases, Bool-cases, inl, inr,
}
use gpt_project_bridge.Base.Dict.{lookup}
use gpt_project_bridge.Base.Text.{has_text}
use gpt_project_bridge.Host.{Host, compare_digest}
use gpt_project_bridge.Registry.Keys.{require_text}
use gpt_project_bridge.Federation.Relation.{
  hmac_witness, Relation, payload_digest, check_witness, check_relation, Request, RelationDecision,
  hmac_shared_secret_scheme,
}
use gpt_project_bridge.Federation.Gate.{witness_of, attach, sign_relation, usable, evaluate}
use gpt_project_bridge.Federation.Gate.Admitted.{InScope, evaluate_iff}

-- a check that did not raise, and the rest behind it
checked :
    {A B : Type 0} (a : Result A) (b : Result B) {x : B}
    → (a &> b) ≡ ok x
    → ((u : A) × (a ≡ ok u)) × (b ≡ ok x)
checked (ok u) b e = ((u, refl), e)
checked (err m) b e = absurd (cc e)

required : (b : Bool) (m : Exn) {u : Unit {0}} → require b m ≡ ok u → b ≡ true
required true m e = refl
required false m e = cc e

-- the relation with the witness of two secrets
abbrev pub signed_by : Host → String → String → Relation → Relation
signed_by H s t r = record r {
  witness = some (hmac_witness (witness_of H s t (payload_digest H r)));
}

attach-ok :
    (H : Host) (s t : String) (r : Relation) {signed : Relation}
    → attach H s t r ≡ ok signed
    → signed ≡ signed_by H s t r
unfolding attach
attach-ok H s t r e =
    let (_, e1) = checked (check_witness (witness_of H s t (payload_digest H r))) _ e in
    let (_, e2) = checked (check_relation (signed_by H s t r)) _ e1 in sym (ok_inj e2)

sign_relation-ok :
    (H : Host) (s t : String) (r : Relation) {signed : Relation}
    → sign_relation H s t r ≡ ok signed
    → (has_text s ≡ true)
      × (has_text t ≡ true)
      × (compare_digest s t ≡ ok false)
      × (signed ≡ signed_by H s t r)
unfolding sign_relation require_text
sign_relation-ok H s t r e =
    let (_, e1) = checked (require (is_none r.witness) _) _ e in
    let (_, e2) = checked (require (r.witness_scheme == hmac_shared_secret_scheme) _) _ e1 in
    let ((_, a), e3) = checked (require (has_text s) _) _ e2 in
    let ((_, b), e4) = checked (require (has_text t) _) _ e3 in
    elim (Result-cases (compare_digest s t)) [
      | inr x ↦ absurd (cc (rw x.1 at e4))
      | inl x ↦
          let ((_, c), e5) = checked (require (not x.0) _) _ (rw x.1 at e4) in
          (
            required (has_text s) _ a,
            required (has_text t) _ b,
            x.1 ∙ ap ok (opposite x.0 (required (not x.0) _ c)),
            attach-ok H s t r e5,
          )
    ]
  where
    opposite : (b : Bool) → not b ≡ true → b ≡ false
    opposite true h = cc h
    opposite false h = refl

usable_text : (s : String) → has_text s ≡ true → usable (some s) ≡ some s
unfolding usable has_text
usable_text s h = elim (Bool-cases (s == "")) [
  | inl e ↦ absurd (cc (rw ((eq_iff s "").0 e) at h))
  | inr e ↦ rw e refl
]

-- A relation that was signed under two secrets passes a gate that knows them as those of its
-- authorities, at every time and for every request that are inside the relation.
pub sign_relation-evaluate :
    (H : Host) (s t : String) (r : Relation) {signed : Relation} (secrets : List (String × String))
    (now : ℕ) (q : Request)
    → sign_relation H s t r ≡ ok signed
    → lookup r.source_authority secrets ≡ some s
    → lookup r.target_authority secrets ≡ some t
    → InScope now r q
    → (d : RelationDecision) × (evaluate H secrets now signed q ≡ ok d) × (d.admissible ≡ true)
unfolding payload_digest witness_of
sign_relation-evaluate H s t r secrets now q e src dst scope =
    let (hs, ht, differ, shape) = sign_relation-ok H s t r e in
    let known = ap usable src ∙ usable_text s hs in
    let known' = ap usable dst ∙ usable_text t ht in
    subst
      (λ x. (d : RelationDecision) × (evaluate H secrets now x q ≡ ok d) × (d.admissible ≡ true))
      (sym shape)
      ((evaluate_iff H secrets now (signed_by H s t r) q).1 (
        record {
          status = scope.status;
          source = scope.source;
          target = scope.target;
          contract = scope.contract;
          capability = scope.capability;
          started = scope.started;
          not_over = scope.not_over;
          scheme = scope.scheme;
        },
        record {
          given = witness_of H s t (payload_digest H r);
          source_secret = s;
          target_secret = t;
          attached = refl;
          source_known = known;
          target_known = known';
          scheme = sym scope.scheme;
          payload = refl;
          distinct = differ;
          source_signed = refl;
          target_signed = refl;
        },
      ))
