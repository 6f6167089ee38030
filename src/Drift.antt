-- ===== src/Drift.antt =====
-- The readings and `TwoAxisAdjudicator` of app/drift_engine.py. A float is a value of a type that comes
-- with what the code uses of it.
pub mod Verdicts
use gpt_project_bridge.Base.{
  ℕ, zero, suc, String, Bool, true, false, not, ◌&&◌, ◌||◌, Option, none, some, List, [], ◌∷◌, map,
  Result, ok, err, value_error, ◌&>◌, require, ltb, leb, nat_eq, any_of, all_of, count_of, ◌==◌,
  if◌then◌else◌,
}

pub record Reals : Type 1 where
  pub F : Type 0
  pub zero_f : F
  -- `a < b` and `a <= b`
  pub lt : F → F → Bool
  pub le : F → F → Bool
  -- `math.isfinite`
  pub finite : F → Bool
  -- `sum(xs) / len(xs)` of a list that is not empty
  pub mean : List F → F
  -- `round(x, 4)`
  pub round4 : F → F

pub data Verdict : Type 0 where
  continuity drift dissenso clone distinct silence escalate infeasible : Verdict

unfoldable pub verdict_value : Verdict → String
verdict_value continuity = "CONTINUITY"
verdict_value drift = "DRIFT"
verdict_value dissenso = "DISSENSO"
verdict_value clone = "CLONE"
verdict_value distinct = "DISTINCT"
verdict_value silence = "SILENCE"
verdict_value escalate = "ESCALATE"
verdict_value infeasible = "INFEASIBLE"

-- the texts that `classify` returns
pub data Label : Type 0 where
  says_silence says_drift says_no_drift says_undecided : Label

abbrev pub is_silence : Label → Bool
is_silence says_silence = true
is_silence _ = false

abbrev pub is_drift : Label → Bool
is_drift says_drift = true
is_drift _ = false

abbrev pub is_undecided : Label → Bool
is_undecided says_undecided = true
is_undecided _ = false

unfoldable pub is_empty_list : {A : Type 0} → List A → Bool
is_empty_list [] = true
is_empty_list (x ∷ xs) = false

pub record Adjudicator : Type 0 where
  pub k : ℕ
  pub aggregation : String

-- its `__init__`
unfoldable pub check_adjudicator : Adjudicator → Result (Unit {0})
check_adjudicator a =
    require (leb 1 a.k) (value_error "quorum_k deve ser >= 1")
    &> require (a.aggregation == "exists" || a.aggregation == "forall")
        (value_error "agregação deve ser 'exists' (fail-closed) ou 'forall'")

-- whether the lenses together say that there is drift
unfoldable pub aggregate : Adjudicator → List Label → Bool
aggregate a labels =
    if a.aggregation == "exists" then any_of is_drift labels else all_of is_drift labels

abbrev pub by_lineage : (lineage_continuous drifted : Bool) → Verdict
by_lineage true true = drift
by_lineage true false = continuity
by_lineage false true = distinct
by_lineage false false = clone

-- the verdict by the labels, and the reason that is added to the detail
unfoldable pub settle : Adjudicator → Bool → List Label → Verdict × Option String
unfolding aggregate
settle a lineage labels =
    let drifting = count_of is_drift labels in
    if ltb 0 drifting && ltb drifting a.k
    then (dissenso, some "lentes discordam sob o mesmo par")
    else if any_of is_undecided labels && nat_eq drifting 0
    then (escalate, some "IC cruza o onset")
    else (by_lineage lineage (aggregate a labels), none)

-- behind the lineage and the certificate
unfoldable pub weigh : Adjudicator → Option Bool → Bool → List Label → Verdict × Option String
unfolding settle
weigh a none asc_ok labels = (escalate, some "linhagem indecidível")
weigh a (some lineage) asc_ok labels =
    if not asc_ok
    then (escalate, some "ASC sem certificado de preservação")
    else settle a lineage labels

module _ (R : Reals) where
  pub record LensReading : Type 0 where
    pub lens_id : String
    pub from_telemetry_window : Bool
    pub per_probe : List R.F
    pub onset : R.F
    pub ci_low : R.F
    pub ci_high : R.F

  -- its `__post_init__`
  unfoldable pub check_lens : LensReading → Result (Unit {0})
  check_lens l =
      require (not (l.lens_id == "")) (value_error "lens_id não pode ser vazio")
      &> require (all_of (λ x. R.finite x && R.le R.zero_f x) l.per_probe)
          (value_error "per_probe deve conter valores finitos não negativos")
      &> require (R.finite l.onset && (R.finite l.ci_low && R.finite l.ci_high))
          (value_error "onset e intervalo de confiança devem ser finitos")
      &> require (not (R.lt l.ci_high l.ci_low))
          (value_error "ci_low não pode ser maior que ci_high")

  unfoldable pub mean_c : LensReading → R.F
  unfolding is_empty_list
  mean_c l = if is_empty_list l.per_probe then R.zero_f else R.mean l.per_probe

  unfoldable pub classify : LensReading → Label
  unfolding is_empty_list
  classify l =
      if not l.from_telemetry_window || is_empty_list l.per_probe
      then says_silence
      else if R.lt l.onset l.ci_low
      then says_drift
      else if R.le l.ci_high l.onset
      then says_no_drift
      else says_undecided

  pub record AscCertificate : Type 0 where
    pub kappa : R.F
    pub omega_hat : R.F
    pub spectral_entropy : R.F
    pub null_baseline_passed : Bool

  -- `asc is None or asc.certifies_preservation()`
  unfoldable pub certified : Option AscCertificate → Bool
  certified none = true
  certified (some asc) = asc.null_baseline_passed

  pub record ViabilityReading : Type 0 where
    pub regulator_variety : R.F
    pub disturbance_variety : R.F

  unfoldable pub feasible : ViabilityReading → Bool
  feasible v = R.le v.disturbance_variety v.regulator_variety

  -- `viability is None or viability.feasible()`
  unfoldable pub viable : Option ViabilityReading → Bool
  unfolding feasible
  viable none = true
  viable (some v) = feasible v

  -- a value of the detail: what a lens says, or a reason
  pub data Detail : Type 0 where
    reading : Label → (mean onset : R.F) → Detail
    reason : String → Detail

  -- `d[key] = v`
  unfoldable pub put_detail : String → Detail → List (String × Detail) → List (String × Detail)
  put_detail key v [] = (key, v) ∷ []
  put_detail key v ((k, w) ∷ d) =
      let rest = put_detail key v d in if k == key then (k, v) ∷ d else (k, w) ∷ rest

  details : List LensReading → List (String × Detail) → List (String × Detail)
  unfolding put_detail classify mean_c
  details [] d = d
  details (l ∷ ls) d =
      details ls (put_detail l.lens_id (reading (classify l) (R.round4 (mean_c l)) l.onset) d)

  abbrev with_reason : Option String → List (String × Detail) → List (String × Detail)
  with_reason none d = d
  with_reason (some r) d = put_detail "reason" (reason r) d

  unfoldable pub adjudicate :
      Adjudicator
      → Option Bool
      → List LensReading
      → Option ViabilityReading
      → Option AscCertificate
      → Verdict × List (String × Detail)
  unfolding viable certified classify details weigh put_detail
  adjudicate a lineage lenses viability asc =
      let labels = map classify lenses in
      let detail = details lenses [] in
      let (v, r) = weigh a lineage (certified asc) labels in
      if not (viable viability)
      then (infeasible, ("reason", reason "ashby: variedade do regulador insuficiente") ∷ [])
      else if all_of is_silence labels
      then (silence, detail)
      else (v, with_reason r detail)
