-- ===== src/Tests/Drift.antt =====
-- The adjudicator of drift at concrete readings.
use gpt_project_bridge.Base.{
  arith, ℕ, ◌≤◌, ◌≡◌, ◌↔◌, refl, true, false, none, some, List, [], ◌∷◌, map, ltb, leb, count_of,
  any_of, all_of,
}
use gpt_project_bridge.Drift.{
  Reals, continuity, drift, is_silence, is_drift, is_undecided, LensReading, ViabilityReading,
  classify, certified, viable, Adjudicator, adjudicate,
}
use gpt_project_bridge.Drift.Verdicts.{adjudicate_lem}

-- a float as a number of hundredths
abbrev hundredths : Reals
hundredths = record {
  F = ℕ;
  zero_f = 0;
  lt = ltb;
  le = leb;
  finite = λ x. true;
  mean = λ xs. 50;
  round4 = λ x. x;
}

abbrev two_of : Adjudicator
two_of = record { k = 2; aggregation = "exists" }

abbrev lens_a : LensReading hundredths
lens_a = record {
  lens_id = "a";
  from_telemetry_window = true;
  per_probe = 40 ∷ 60 ∷ [];
  onset = 30;
  ci_low = 40;
  ci_high = 60;
}

abbrev lens_b : LensReading hundredths
lens_b = record {
  lens_id = "b";
  from_telemetry_window = true;
  per_probe = 50 ∷ [];
  onset = 20;
  ci_low = 45;
  ci_high = 55;
}

abbrev lenses : List (LensReading hundredths)
lenses = lens_a ∷ lens_b ∷ []

abbrev varied : ViabilityReading hundredths
varied = record { regulator_variety = 90; disturbance_variety = 70 }

adjudicate_lem_example :
    let labels = map (classify hundredths) lenses in
    let verdict = (adjudicate hundredths two_of (some true) lenses (some varied) none).0 in
    ((verdict ≡ continuity) ↔ (
      (viable hundredths (some varied) ≡ true)
      × (all_of is_silence labels ≡ false)
      × (some true ≡ some true)
      × (certified hundredths none ≡ true)
      × (count_of is_drift labels ≡ 0)
      × (any_of is_undecided labels ≡ false)))
    × ((verdict ≡ drift) ↔ (
        (viable hundredths (some varied) ≡ true)
        × (all_of is_silence labels ≡ false)
        × (some true ≡ some true)
        × (certified hundredths none ≡ true)
        × (2 ≤ count_of is_drift labels)))
adjudicate_lem_example =
    adjudicate_lem hundredths two_of (some true) lenses (some varied) none refl (omega arith)

adjudicate-drift : (adjudicate hundredths two_of (some true) lenses (some varied) none).0 ≡ drift
unfolding adjudicate
adjudicate-drift = refl
