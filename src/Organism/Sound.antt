-- ===== src/Organism/Sound.antt =====
-- What the governed loop of app/organism_loop.py keeps.
use gpt_project_bridge.Base.{
  ok_inj, ℕ, String, ◌≡◌, refl, sym, ap, ◌∙◌, ◌⊎◌, inl, inr, true, false, Option, none, some, List,
  [], ◌∷◌, ok, pure, arith, Bool-cases, Option-cases, Result-cases, any_of, nat_eq, All, ◌==◌,
  subst, some_inj,
}
use Prim.Native.String.{compare}
use Prim.Native.Nat.{Ordering}
use gpt_project_bridge.Base.Inversion.{bind-ok}
use gpt_project_bridge.Json.{Fields}
use gpt_project_bridge.Host.{Host, stable_hash}
use gpt_project_bridge.Core.{block}
use gpt_project_bridge.Organism.State.{
  InheritedConstraint, Organism, sorted_constraints, insert_constraint, state_payload,
  mark_state_mutated, cached, root_found, state_root,
}
use gpt_project_bridge.Organism.Loop.{LoopResult, is_evaluation}
use gpt_project_bridge.Organism.Evaluate.{
  Proposed, Ruling, matches, first_match, ruling, event_receipt, event_evidence, record_evaluation,
  conclude, report, evaluate,
}

cached-some :
    (c : Option String) (g : Option ℕ) (n : ℕ) (root : String)
    → cached c g n ≡ some root
    → c ≡ some root
unfolding cached
cached-some none g n root e = e
cached-some (some r) none n root e = cc e
cached-some (some r) (some g) n root e = elim (Bool-cases (nat_eq g n)) [
  | inl t ↦ rw t at e
  | inr f ↦ cc (rw f at e)
]

module _ (H : Host) where
  -- The cached root, if there is one, is the root of the state.
  abbrev pub IsFresh : Organism → Type 0
  IsFresh o =
      (root : String) → o.cached_state_root ≡ some root → root ≡ stable_hash H (state_payload o)

  state_root-IsFresh :
      (o : Organism)
      → IsFresh o
      → ((state_root H o).0 ≡ ok (stable_hash H (state_payload o)))
        × IsFresh (state_root H o).1
        × (state_payload (state_root H o).1 ≡ state_payload o)
  unfolding state_root root_found state_payload
  state_root-IsFresh o fresh =
      elim (Option-cases
        (cached o.cached_state_root o.cached_state_generation o.state_generation)) [
          | inl none_yet ↦ rw none_yet (refl, (λ root p. sym (some_inj p)), refl)
          | inr (root, e) ↦
              rw e (ap ok (fresh root (cached-some o.cached_state_root _ _ root e)), fresh, refl)
        ]

  -- no matching constraint among the sorted ones means none at all
  insert-cases :
      (P : InheritedConstraint → Type 0) (c d : InheritedConstraint)
      (ds rest : List InheritedConstraint)
      → (All P rest → P c × All P ds)
      → (o : Ordering) → All P (elim o [ Ordering.gt ↦ d ∷ rest | _ ↦ c ∷ d ∷ ds ])
      → P c × (P d × All P ds)
  insert-cases P c d ds rest k Ordering.lt h = h
  insert-cases P c d ds rest k Ordering.eq h = h
  insert-cases P c d ds rest k Ordering.gt h = ((k h.1).0, (h.0, (k h.1).1))

  All-insert :
      (P : InheritedConstraint → Type 0) (c : InheritedConstraint) (cs : List InheritedConstraint)
      → All P (insert_constraint c cs)
      → P c × All P cs
  unfolding insert_constraint
  All-insert P c [] h = h
  All-insert P c (d ∷ ds) h =
      insert-cases P c d ds (insert_constraint c ds) (All-insert P c ds)
        (compare c.constraint_id d.constraint_id) h

  All-sorted :
      (P : InheritedConstraint → Type 0) (cs : List InheritedConstraint)
      → All P (sorted_constraints cs)
      → All P cs
  unfolding sorted_constraints
  All-sorted P [] h = tt
  All-sorted P (c ∷ cs) h =
      let (p, rest) = All-insert P c (sorted_constraints cs) h in (p, All-sorted P cs rest)

  first_match-none :
      (proposal : Fields) (cs : List InheritedConstraint)
      → first_match H proposal cs ≡ ok none
      → All (λ c. matches H c.match_json proposal ≡ ok false) cs
  unfolding first_match
  first_match-none proposal [] e = tt
  first_match-none proposal (c ∷ cs) e = elim (Result-cases (matches H c.match_json proposal)) [
    | inr (x, q) ↦ absurd (ground arith)
    | inl (true, q) ↦ absurd (ground arith)
    | inl (false, q) ↦ (q, first_match-none proposal cs (ground arith))
  ]

  -- The constraint stands in the list.
  unfoldable pub In : InheritedConstraint → List InheritedConstraint → Type 0
  In c [] = ⊥
  In c (d ∷ ds) = (c ≡ d) ⊎ In c ds

  In-cases :
      (c d k : InheritedConstraint) (ds rest : List InheritedConstraint)
      → (In k rest → (k ≡ c) ⊎ In k ds)
      → (o : Ordering) → In k (elim o [ Ordering.gt ↦ d ∷ rest | _ ↦ c ∷ d ∷ ds ])
      → (k ≡ c) ⊎ In k (d ∷ ds)
  unfolding In
  In-cases c d k ds rest g Ordering.lt h = h
  In-cases c d k ds rest g Ordering.eq h = h
  In-cases c d k ds rest g Ordering.gt (inl same) = inr (inl same)
  In-cases c d k ds rest g Ordering.gt (inr later) = elim (g later) [
    | inl new ↦ inl new
    | inr old ↦ inr (inr old)
  ]

  In-insert :
      (c k : InheritedConstraint) (cs : List InheritedConstraint)
      → In k (insert_constraint c cs)
      → (k ≡ c) ⊎ In k cs
  unfolding insert_constraint In
  In-insert c k [] h = h
  In-insert c k (d ∷ ds) h =
      In-cases c d k ds (insert_constraint c ds) (In-insert c k ds)
        (compare c.constraint_id d.constraint_id) h

  In-sorted :
      (k : InheritedConstraint) (cs : List InheritedConstraint)
      → In k (sorted_constraints cs)
      → In k cs
  unfolding sorted_constraints In
  In-sorted k [] h = h
  In-sorted k (c ∷ cs) h = elim (In-insert c k (sorted_constraints cs) h) [
    | inl same ↦ inl same
    | inr rest ↦ inr (In-sorted k cs rest)
  ]

  first_match-some :
      (proposal : Fields) (cs : List InheritedConstraint) (c : InheritedConstraint)
      → first_match H proposal cs ≡ ok (some c)
      → In c cs × (matches H c.match_json proposal ≡ ok true)
  unfolding first_match In
  first_match-some proposal [] c e = absurd (ground arith)
  first_match-some proposal (d ∷ cs) c e = elim (Result-cases (matches H d.match_json proposal)) [
    | inr (x, q) ↦ absurd (ground arith)
    | inl (true, q) ↦
        let same : d ≡ c = ground arith in
        (
          inl (sym same),
          subst (λ (k : InheritedConstraint). matches H k.match_json proposal ≡ ok true) same q,
        )
    | inl (false, q) ↦
        let (later, hit) = first_match-some proposal cs c (ground arith) in (inr later, hit)
  ]

  -- What decided on a proposal: one of the constraints inherited, which it matches and which blocks, or
  -- the gate, where the proposal matches none of them.
  unfoldable pub Decided : Proposed → Organism → Ruling → Type 0
  Decided p o r =
      ((c : InheritedConstraint) × In c o.constraints
        × (matches H c.match_json p.proposal ≡ ok true)
        × (r.decision ≡ block)
        × (r.matched_id ≡ some c.constraint_id))
      ⊎ (All (λ c. matches H c.match_json p.proposal ≡ ok false) o.constraints
          × (r ≡ ruling H p none))

  ruling-Decided :
      (p : Proposed) (o : Organism) (m : Option InheritedConstraint)
      → first_match H p.proposal (sorted_constraints o.constraints) ≡ ok m
      → Decided p o (ruling H p m)
  unfolding Decided ruling
  ruling-Decided p o none e =
      inr (All-sorted _ o.constraints (first_match-none p.proposal _ e), refl)
  ruling-Decided p o (some c) e =
      let (is_in, hit) = first_match-some p.proposal _ c e in
      inl (c, In-sorted c o.constraints is_in, hit, refl, refl)

  record_evaluation-IsFresh :
      (p : Proposed) (r : Ruling) (receipt : String) (o : Organism)
      → IsFresh (record_evaluation H p r receipt o)
  unfolding record_evaluation mark_state_mutated
  record_evaluation-IsFresh p r receipt o root e = cc e

  unfoldable pub ruling_of : LoopResult → Ruling
  ruling_of result = record {
    decision = result.decision;
    reason = result.reason;
    matched_id = result.matched_constraint_id;
  }

  Concluded : Ruling → LoopResult → Organism → Type 0
  Concluded r result o' =
      (ruling_of result ≡ r) × (result.state_root ≡ stable_hash H (state_payload o')) × IsFresh o'

  conclude-Concluded :
      (p : Proposed) (r : Ruling) (before : String) (o : Organism) {result : LoopResult}
      {o' : Organism}
      → conclude H p r before o ≡ (ok result, o')
      → Concluded r result o'
  unfolding conclude Concluded ruling_of
  conclude-Concluded p r before o {result} {o'} e =
      let receipt : String = event_receipt H p r before o in
      let evidence : Fields = event_evidence H p r before o in
      let o2 : Organism = record_evaluation H p r receipt o in
      let (root2, fresh2, same2) =
        state_root-IsFresh o2 (record_evaluation-IsFresh p r receipt o) in
      let (after, s, ran, done) =
        bind-ok (state_root H) (λ after. pure (report H p r evidence after)) o2 {b = result}
          {t = o'} e in
      let back : report H p r evidence after ≡ result = ok_inj (ap (λ q. q.0) done) in
      let moved : (state_root H o2).1 ≡ o' = ap (λ q. q.1) ran ∙ ap (λ q. q.1) done in
      let rooted : stable_hash H (state_payload o2) ≡ after =
        ok_inj (sym root2 ∙ ap (λ q. q.0) ran) in
      (
        sym (ap ruling_of back),
        sym (ap (λ (x : LoopResult). x.state_root) back)
            ∙ sym rooted
            ∙ ap (stable_hash H) (sym same2)
            ∙ ap (λ x. stable_hash H (state_payload x)) moved,
        subst IsFresh moved fresh2,
      )

  -- An evaluation that returned had a new event id; it was blocked by a constraint of the organism, the
  -- one that the answer names, which the proposal matches, or else the proposal matches no constraint of
  -- the organism and the gate ruled; and the root in the answer is the hash of the state that the
  -- evaluation left, as is any root that this state caches.
  pub evaluate_lem :
      (p : Proposed) (o : Organism) {result : LoopResult} {o' : Organism}
      → evaluate H p o ≡ (ok result, o')
      → (any_of (is_evaluation p.event_id) o.lineage ≡ false)
        × Decided p o (ruling_of result)
        × (result.state_root ≡ stable_hash H (state_payload o'))
        × IsFresh o'
  unfolding evaluate Concluded
  evaluate_lem p o {result} {o'} e = elim (Bool-cases (p.event_id == "")) [
    | inl t ↦ absurd (ground arith)
    | inr f ↦ elim (Bool-cases (any_of (is_evaluation p.event_id) o.lineage)) [
      | inl t ↦ absurd (ground arith)
      | inr g ↦ elim (Result-cases (first_match H p.proposal (sorted_constraints o.constraints))) [
        | inr (x, q) ↦ absurd (ground arith)
        | inl (m, q) ↦
            let (before, o1, ran, done) =
              bind-ok (state_root H) (conclude H p (ruling H p m)) o {b = result} {t = o'}
                (ground arith) in
            let (same, root, fresh) = conclude-Concluded p (ruling H p m) before o1 done in
            (g, subst (Decided p o) (sym same) (ruling-Decided p o m q), root, fresh)
      ]
    ]
  ]
