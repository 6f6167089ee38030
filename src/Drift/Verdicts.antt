-- ===== src/Drift/Verdicts.antt =====
-- When the adjudicator of app/drift_engine.py finds continuity and when it finds drift.
use gpt_project_bridge.Base.{
  some_inj, ℕ, ◌≤◌, ◌≡◌, ◌↔◌, refl, Bool, true, false, not, ◌&&◌, Option, none, some, List, [], ◌∷◌,
  map, ltb, nat_eq, arith, any_of, all_of, count_of, if◌then◌else◌, ap, eq_iff, ◌∙◌, sym,
}
use gpt_project_bridge.Drift.{
  Reals, Verdict, continuity, drift, escalate, silence, infeasible, Label, says_silence, says_drift,
  says_no_drift, says_undecided, is_silence, is_drift, is_undecided, LensReading, AscCertificate,
  ViabilityReading, classify, certified, viable, Adjudicator, by_lineage, dissenso, aggregate,
  settle, weigh, adjudicate,
}

-- some lens reports drift exactly if the count is above 0
count_any : (ls : List Label) → any_of is_drift ls ≡ ltb 0 (count_of is_drift ls)
count_any [] = refl
count_any (says_drift ∷ ls) = ground arith
count_any (says_silence ∷ ls) = count_any ls
count_any (says_no_drift ∷ ls) = count_any ls
count_any (says_undecided ∷ ls) = count_any ls

-- the answer by the number of drifting lenses, and whether one is undecided
abbrev rule : (k drifting : ℕ) (undecided lineage : Bool) → Verdict
rule k drifting undecided lineage =
    if ltb 0 drifting && ltb drifting k
    then dissenso
    else if undecided && nat_eq drifting 0
    then escalate
    else by_lineage lineage (ltb 0 drifting)

rule-continuity :
    (k drifting : ℕ) (undecided lineage : Bool)
    → 1 ≤ k
    → (rule k drifting undecided lineage ≡ continuity)
      ↔ ((lineage ≡ true) × (drifting ≡ 0) × (undecided ≡ false))
rule-continuity k drifting undecided lineage le = (λ h. ground arith, λ h. ground arith)

rule-drift :
    (k drifting : ℕ) (undecided lineage : Bool)
    → 1 ≤ k
    → (rule k drifting undecided lineage ≡ drift) ↔ ((lineage ≡ true) × (k ≤ drifting))
rule-drift k drifting undecided lineage le = (λ h. ground arith, λ h. ground arith)

-- the first part of a pair that is chosen by two tests
first_of :
    {A B : Type 0} (b c : Bool) (x y z : A × B)
    → (if◌then◌else◌ {A = A × B} b x (if c then y else z)).0
      ≡ (if b then x.0 else if c then y.0 else z.0)
first_of true c x y z = refl
first_of false true x y z = refl
first_of false false x y z = refl

aggregate-exists :
    (a : Adjudicator) (labels : List Label)
    → a.aggregation ≡ "exists"
    → aggregate a labels ≡ ltb 0 (count_of is_drift labels)
unfolding aggregate
aggregate-exists a labels e = rw ((eq_iff a.aggregation "exists").1 e) (count_any labels)

settle-rule :
    (a : Adjudicator) (lineage : Bool) (labels : List Label)
    → a.aggregation ≡ "exists"
    → (settle a lineage labels).0
      ≡ rule a.k (count_of is_drift labels) (any_of is_undecided labels) lineage
unfolding settle
settle-rule a lineage labels e =
    first_of (ltb 0 (count_of is_drift labels) && ltb (count_of is_drift labels) a.k)
      (any_of is_undecided labels && nat_eq (count_of is_drift labels) 0)
      (dissenso, some "lentes discordam sob o mesmo par") (escalate, some "IC cruza o onset")
      (by_lineage lineage (aggregate a labels), none)
    ∙ rw (aggregate-exists a labels e) refl

-- the verdict behind the lineage and the certificate
abbrev weighed : (k drifting : ℕ) (undecided asc_ok : Bool) → Option Bool → Verdict
weighed k drifting undecided asc_ok none = escalate
weighed k drifting undecided asc_ok (some lineage) =
    if not asc_ok then escalate else rule k drifting undecided lineage

weigh-weighed :
    (a : Adjudicator) (lineage : Option Bool) (asc_ok : Bool) (labels : List Label)
    → a.aggregation ≡ "exists"
    → (weigh a lineage asc_ok labels).0
      ≡ weighed a.k (count_of is_drift labels) (any_of is_undecided labels) asc_ok lineage
unfolding weigh
weigh-weighed a none asc_ok labels e = refl
weigh-weighed a (some lineage) false labels e = refl
weigh-weighed a (some lineage) true labels e = settle-rule a lineage labels e

-- the whole, by what the readings come to
abbrev ruled :
    (viable silent : Bool) (k drifting : ℕ) (undecided asc_ok : Bool) → Option Bool → Verdict
ruled viable silent k drifting undecided asc_ok lineage =
    if not viable
    then infeasible
    else if silent
    then silence
    else weighed k drifting undecided asc_ok lineage

ruled-continuity :
    (v s : Bool) (k n : ℕ) (u c : Bool) (lineage : Option Bool)
    → 1 ≤ k
    → (ruled v s k n u c lineage ≡ continuity)
      ↔ ((v ≡ true) × (s ≡ false) × (lineage ≡ some true) × (c ≡ true) × (n ≡ 0) × (u ≡ false))
ruled-continuity v s k n u c none le = (λ h. absurd (ground arith), λ h. cc h.2)
ruled-continuity v s k n u c (some lineage) le = (
  λ h.
      let p : lineage ≡ true = ground arith in
      (ground arith, ground arith, ap some p, ground arith, ground arith, ground arith),
  λ h. let p = some_inj h.2 in ground arith,
)

ruled-drift :
    (v s : Bool) (k n : ℕ) (u c : Bool) (lineage : Option Bool)
    → 1 ≤ k
    → (ruled v s k n u c lineage ≡ drift)
      ↔ ((v ≡ true) × (s ≡ false) × (lineage ≡ some true) × (c ≡ true) × (k ≤ n))
ruled-drift v s k n u c none le = (λ h. absurd (ground arith), λ h. cc h.2)
ruled-drift v s k n u c (some lineage) le = (
  λ h.
      let p : lineage ≡ true = ground arith in
      (ground arith, ground arith, ap some p, ground arith, ground arith),
  λ h. let p = some_inj h.2 in ground arith,
)

module _ (R : Reals) (a : Adjudicator) (lineage : Option Bool) (lenses : List (LensReading R)) where
  adjudicate-ruled :
      (viability : Option (ViabilityReading R)) (asc : Option (AscCertificate R))
      → a.aggregation ≡ "exists"
      → let labels = map (classify R) lenses in
        (adjudicate R a lineage lenses viability asc).0
        ≡ ruled
            (viable R viability)
            (all_of is_silence labels)
            a.k
            (count_of is_drift labels)
            (any_of is_undecided labels)
            (certified R asc)
            lineage
  unfolding adjudicate
  adjudicate-ruled viability asc e =
      let labels = map (classify R) lenses in
      let w = weigh a lineage (certified R asc) labels in
      first_of (not (viable R viability)) (all_of is_silence labels) (infeasible, _) (silence, _)
        (w.0, _)
      ∙ ap
          (λ x.
            if not (viable R viability)
            then infeasible
            else if all_of is_silence labels
            then silence
            else x)
          (weigh-weighed a lineage (certified R asc) labels e)

  -- With the aggregation that is closed on failure and a quorum of at least one: the verdict is
  -- CONTINUITY exactly if the regulator is varied enough, a lens is not silent, the lineage is
  -- known to be continuous, the certificate holds if there is one, and no lens reports drift or is
  -- undecided; and it is DRIFT exactly if all of that holds but for the last part, and a quorum of
  -- the lenses reports drift.
  pub adjudicate_lem :
      (viability : Option (ViabilityReading R)) (asc : Option (AscCertificate R))
      → a.aggregation ≡ "exists"
      → 1 ≤ a.k
      → let labels = map (classify R) lenses in
        let verdict = (adjudicate R a lineage lenses viability asc).0 in
        ((verdict ≡ continuity) ↔ (
          (viable R viability ≡ true)
          × (all_of is_silence labels ≡ false)
          × (lineage ≡ some true)
          × (certified R asc ≡ true)
          × (count_of is_drift labels ≡ 0)
          × (any_of is_undecided labels ≡ false)))
        × ((verdict ≡ drift) ↔ (
            (viable R viability ≡ true)
            × (all_of is_silence labels ≡ false)
            × (lineage ≡ some true)
            × (certified R asc ≡ true)
            × (a.k ≤ count_of is_drift labels)))
  adjudicate_lem viability asc e le =
      let labels : List Label = map (classify R) lenses in
      let same = adjudicate-ruled viability asc e in
      let calm =
        ruled-continuity (viable R viability) (all_of is_silence labels) a.k
          (count_of is_drift labels) (any_of is_undecided labels) (certified R asc) lineage le in
      let drifts =
        ruled-drift (viable R viability) (all_of is_silence labels) a.k (count_of is_drift labels)
          (any_of is_undecided labels) (certified R asc) lineage le in
      (
        (λ h. calm.0 (sym same ∙ h), λ h. same ∙ calm.1 h),
        (λ h. drifts.0 (sym same ∙ h), λ h. same ∙ drifts.1 h),
      )
