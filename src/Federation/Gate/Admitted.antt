-- ===== src/Federation/Gate/Admitted.antt =====
-- When `RelationIntegrityGate` of app/federation_relation.py admits a relation.
use gpt_project_bridge.Base.{
  ok_inj, ℕ, ◌≤◌, ◌<◌, String, ◌≡◌, ◌↔◌, refl, Bool, true, false, not, ◌&&◌, Option, none, some,
  List, [], ◌∷◌, ◌++◌, ok, err, Exn, any_of, ltb, leb, is_none, ◌==◌, when, eq_iff, arith, sym, ap,
  ◌∙◌, Result-cases, inl, inr,
}
use gpt_project_bridge.Base.Dict.{lookup}
use gpt_project_bridge.Host.{Host, compare_digest}
use gpt_project_bridge.Federation.Relation.{
  RelationStatus, active, revoked, RelationWitness, Witness, hmac_witness, foreign, Relation,
  payload_digest, Request, RelationDecision, hmac_shared_secret_scheme,
}
use gpt_project_bridge.Federation.Gate.{
  relation_hmac, usable, scope_reasons, shared_reasons, side_reasons, witness_reasons, none_of,
  decision, evaluate, status_reasons,
}

none_of-when :
    (b : Bool) (s : String) (rest : List String)
    → none_of (when b s ++ rest) ≡ (not b && none_of rest)
none_of-when true s rest = refl
none_of-when false s rest = refl

none_of-one : (b : Bool) (s : String) → none_of (when b s) ≡ not b
none_of-one true s = refl
none_of-one false s = refl

none_of-append : (xs ys : List String) → none_of (xs ++ ys) ≡ (none_of xs && none_of ys)
none_of-append [] ys = refl
none_of-append (x ∷ xs) ys = refl

-- The request stays inside the relation, which is active and inside its window.
pub record InScope (now : ℕ) (r : Relation) (q : Request) : Type 0 where
  pub status : r.status ≡ active
  pub source : q.source_domain ≡ r.source_domain
  pub target : q.target_domain ≡ r.target_domain
  pub contract : q.contract_hash ≡ r.contract_hash
  pub capability : any_of (λ c. c == q.capability) r.capabilities ≡ true
  pub started : r.valid_from ≤ now
  pub not_over : now < r.valid_until
  pub scheme : r.witness_scheme ≡ hmac_shared_secret_scheme

is_active : RelationStatus → Bool
is_active active = true
is_active revoked = false

none_of-status :
    (s : RelationStatus) (rest : List String)
    → none_of (status_reasons s ++ rest) ≡ (is_active s && none_of rest)
unfolding status_reasons is_active
none_of-status active rest = refl
none_of-status revoked rest = refl

is_active_lem : (s : RelationStatus) → (is_active s ≡ true) ↔ (s ≡ active)
unfolding is_active
is_active_lem active = (λ h. refl, λ h. refl)
is_active_lem revoked = (λ h. cc h, λ h. cc h)

scope_eq :
    (now : ℕ) (r : Relation) (q : Request)
    → none_of (scope_reasons now r q) ≡ (
        is_active r.status
        && (not (not (q.source_domain == r.source_domain))
            && (not (not (q.target_domain == r.target_domain))
                && (not (not (q.contract_hash == r.contract_hash))
                    && (not (not (any_of (λ c. c == q.capability) r.capabilities))
                        && (not (ltb now r.valid_from)
                            && (not (leb r.valid_until now)
                                && not (not (r.witness_scheme == hmac_shared_secret_scheme)))))))))
unfolding scope_reasons
scope_eq now r q = simp (none_of-status, none_of-when, none_of-one)

-- nothing speaks against the request exactly when it is in scope
scope_lem :
    (now : ℕ) (r : Relation) (q : Request)
    → (none_of (scope_reasons now r q) ≡ true) ↔ InScope now r q
scope_lem now r q = (
  λ h.
      let e = sym (scope_eq now r q) ∙ h in
      record {
        status = (is_active_lem r.status).0 (ground arith);
        source = (eq_iff q.source_domain r.source_domain).0 (ground arith);
        target = (eq_iff q.target_domain r.target_domain).0 (ground arith);
        contract = (eq_iff q.contract_hash r.contract_hash).0 (ground arith);
        capability = ground arith;
        started = ground arith;
        not_over = ground arith;
        scheme = (eq_iff r.witness_scheme hmac_shared_secret_scheme).0 (ground arith);
      },
  λ h.
      let e1 = (is_active_lem r.status).1 h.status in
      let e2 = (eq_iff q.source_domain r.source_domain).1 h.source in
      let e3 = (eq_iff q.target_domain r.target_domain).1 h.target in
      let e4 = (eq_iff q.contract_hash r.contract_hash).1 h.contract in
      let e5 = (eq_iff r.witness_scheme hmac_shared_secret_scheme).1 h.scheme in
      scope_eq now r q ∙ ground (arith, h.capability, h.started, h.not_over),
)

-- Both sides of the witness fit the relation, under two secrets that differ.
pub record IsWitnessed (H : Host) (source target : Option String) (r : Relation) : Type 0 where
  pub given : RelationWitness
  pub source_secret : String
  pub target_secret : String
  pub attached : r.witness ≡ some (hmac_witness given)
  pub source_known : source ≡ some source_secret
  pub target_known : target ≡ some target_secret
  pub scheme : given.scheme ≡ r.witness_scheme
  pub payload : given.payload_sha256 ≡ payload_digest H r
  pub distinct : compare_digest source_secret target_secret ≡ ok false
  pub source_signed :
      relation_hmac H source_secret (payload_digest H r) "source" ≡ given.source_hmac_sha256
  pub target_signed :
      relation_hmac H target_secret (payload_digest H r) "target" ≡ given.target_hmac_sha256

module _ (H : Host) (r : Relation) where
  witness_eq :
      (source target : Option String) (w : RelationWitness) {shared ws : List String}
      → shared_reasons source target ≡ ok shared
      → witness_reasons H source target r (some (hmac_witness w)) ≡ ok ws
      → none_of ws ≡ (
          not (not (w.scheme == r.witness_scheme))
          && (not (not (w.payload_sha256 == payload_digest H r))
              && (not (is_none source)
                  && (not (is_none target)
                      && (none_of shared
                          && (none_of (
                                side_reasons H
                                  (payload_digest H r)
                                  "source"
                                  "invalid_source_witness"
                                  source
                                  w.source_hmac_sha256)
                              && none_of (
                                  side_reasons H
                                    (payload_digest H r)
                                    "target"
                                    "invalid_target_witness"
                                    target
                                    w.target_hmac_sha256)))))))
  unfolding witness_reasons
  witness_eq source target w c e =
      rw (sym (ok_inj (rw c at e))) (simp (none_of-when, none_of-append))

  side_eq :
      (digest role reason secret given : String)
      → none_of (side_reasons H digest role reason (some secret) given)
        ≡ not (not (relation_hmac H secret digest role == given))
  unfolding side_reasons
  side_eq digest role reason secret given = simp none_of-one

  pair_eq :
      (s t : String) (w : RelationWitness) {same : Bool} {ws : List String}
      → compare_digest s t ≡ ok same
      → witness_reasons H (some s) (some t) r (some (hmac_witness w)) ≡ ok ws
      → none_of ws ≡ (
          not (not (w.scheme == r.witness_scheme))
          && (not (not (w.payload_sha256 == payload_digest H r))
              && (not same
                  && (not (
                        not
                          (relation_hmac H s (payload_digest H r) "source" == w.source_hmac_sha256))
                      && not (
                          not (
                            relation_hmac H t (payload_digest H r) "target"
                            == w.target_hmac_sha256))))))
  unfolding shared_reasons
  pair_eq s t w {same} c e =
      witness_eq (some s) (some t) w {shared = when same "shared_authority_secret"} (rw c refl) e
      ∙ simp (side_eq, none_of-one)

  witnessed :
      (source target : Option String) (o : Option Witness) {ws : List String}
      → r.witness ≡ o
      → witness_reasons H source target r o ≡ ok ws
      → none_of ws ≡ true
      → IsWitnessed H source target r
  unfolding witness_reasons shared_reasons
  witnessed source target none a e n = absurd (cc (ok_inj e))
  witnessed source target (some (foreign s p)) a e n = absurd (cc (ok_inj e))
  witnessed none target (some (hmac_witness w)) a e n =
      absurd (ground (arith, witness_eq none target w refl e))
  witnessed (some s) none (some (hmac_witness w)) a e n =
      absurd (ground (arith, witness_eq (some s) none w refl e))
  witnessed (some s) (some t) (some (hmac_witness w)) a e n =
      elim (Result-cases (compare_digest s t)) [
        | inr x ↦ absurd (cc (rw x.1 at e))
        | inl x ↦
            let g = sym (pair_eq s t w x.1 e) ∙ n in
            record {
              given = w;
              source_secret = s;
              target_secret = t;
              attached = a;
              source_known = refl;
              target_known = refl;
              scheme = (eq_iff w.scheme r.witness_scheme).0 (ground arith);
              payload = (eq_iff w.payload_sha256 (payload_digest H r)).0 (ground arith);
              distinct = x.1 ∙ ap ok (ground arith);
              source_signed =
                  (eq_iff (relation_hmac H s (payload_digest H r) "source") w.source_hmac_sha256).0
                    (ground arith);
              target_signed =
                  (eq_iff (relation_hmac H t (payload_digest H r) "target") w.target_hmac_sha256).0
                    (ground arith);
            }
      ]

  pair_ok :
      (s t : String) (w : RelationWitness) {same : Bool}
      → compare_digest s t ≡ ok same
      → (ws : List String) × (witness_reasons H (some s) (some t) r (some (hmac_witness w)) ≡ ok ws)
  unfolding witness_reasons shared_reasons
  pair_ok s t w c = rw c (_, refl)

  witness_clear :
      (source target : Option String)
      → IsWitnessed H source target r
      → (ws : List String) × (witness_reasons H source target r r.witness ≡ ok ws)
        × (none_of ws ≡ true)
  witness_clear source target h =
      let e1 = (eq_iff h.given.scheme r.witness_scheme).1 h.scheme in
      let e2 = (eq_iff h.given.payload_sha256 (payload_digest H r)).1 h.payload in
      let e3 =
        (eq_iff (relation_hmac H h.source_secret (payload_digest H r) "source")
            h.given.source_hmac_sha256).1
          h.source_signed in
      let e4 =
        (eq_iff (relation_hmac H h.target_secret (payload_digest H r) "target")
            h.given.target_hmac_sha256).1
          h.target_signed in
      let (ws, f) = pair_ok h.source_secret h.target_secret h.given h.distinct in
      let g = pair_eq h.source_secret h.target_secret h.given h.distinct f in
      (ws, simp (h.attached, h.source_known, h.target_known, f), ground arith)

  evaluate-ok :
      (secrets : List (String × String)) (now : ℕ) (q : Request) {ws : List String}
      → witness_reasons H
          (usable (lookup r.source_authority secrets))
          (usable (lookup r.target_authority secrets))
          r
          r.witness
        ≡ ok ws
      → (evaluate H secrets now r q ≡ ok (decision H now r q ws))
        × ((decision H now r q ws).admissible ≡ (none_of (scope_reasons now r q) && none_of ws))
  unfolding evaluate decision
  evaluate-ok secrets now q {ws} e = (rw e refl, none_of-append (scope_reasons now r q) ws)

  evaluate-raised :
      (secrets : List (String × String)) (now : ℕ) (q : Request) {x : Exn}
      → witness_reasons H
          (usable (lookup r.source_authority secrets))
          (usable (lookup r.target_authority secrets))
          r
          r.witness
        ≡ err x
      → evaluate H secrets now r q ≡ err x
  unfolding evaluate
  evaluate-raised secrets now q e = rw e refl

-- A relation is found admissible exactly when it is active and inside its window, its witness scheme is
-- the HMAC scheme of shared secrets, the request has its domains, its contract and one of its
-- capabilities, and it carries a witness of that scheme over the digest of its payload, signed by both
-- sides under the usable secrets of both authorities, which are ASCII texts that compare_digest finds
-- different.
pub evaluate_iff :
    (H : Host) (secrets : List (String × String)) (now : ℕ) (r : Relation) (q : Request)
    → ((d : RelationDecision) × (evaluate H secrets now r q ≡ ok d) × (d.admissible ≡ true)) ↔ (
        InScope now r q
        × IsWitnessed H
            (usable (lookup r.source_authority secrets))
            (usable (lookup r.target_authority secrets))
            r)
evaluate_iff H secrets now r q =
    let source = usable (lookup r.source_authority secrets) in
    let target = usable (lookup r.target_authority secrets) in
    (
      λ h. elim (Result-cases (witness_reasons H source target r r.witness)) [
        | inr x ↦ absurd (cc (sym h.1 ∙ evaluate-raised H r secrets now q x.1))
        | inl x ↦
            let (f, g) = evaluate-ok H r secrets now q x.1 in
            let both =
              sym g
              ∙ sym (ap (λ (d : RelationDecision). d.admissible) (ok_inj (sym h.1 ∙ f)))
              ∙ h.2 in
            (
              (scope_lem now r q).0 (ground (arith, both)),
              witnessed H r source target r.witness refl x.1 (ground (arith, both)),
            )
      ],
      λ h.
          let (ws, e, n) = witness_clear H r source target h.1 in
          let (f, g) = evaluate-ok H r secrets now q e in
          let s = (scope_lem now r q).1 h.0 in (decision H now r q ws, f, g ∙ ground arith),
    )
