-- ===== src/Physiology/Controller/Streak.antt =====
-- How the engine of app/physiology.py enters and leaves its safe mode over a run of assessments.
use gpt_project_bridge.Base.{
  ℕ, ◌+◌, ◌≡◌, refl, ◌⊎◌, inl, inr, Bool, true, false, not, ◌||◌, List, [], ◌∷◌, ◌++◌, leb,
  Bool-cases,
}
use gpt_project_bridge.Physiology.Controller.{
  HealthState, normal, degraded, critical, recovering, safe_mode, RuntimeState, plan_normal,
  plan_recovery,
}

-- the runtime state after a run of assessments
unfoldable pub plan_all : ℕ → List HealthState → RuntimeState → RuntimeState
plan_all exit_streak [] s = s
plan_all exit_streak (h ∷ hs) s = plan_all exit_streak hs (plan_recovery exit_streak h s).1

abbrev pub is_critical : HealthState → Bool
is_critical critical = true
is_critical _ = false

abbrev pub no_critical : List HealthState → Bool
no_critical [] = true
no_critical (critical ∷ hs) = false
no_critical (_ ∷ hs) = no_critical hs

-- `n` assessments in a row that are not degraded, counting `k` before the first
abbrev pub reaches : (n k : ℕ) → List HealthState → Bool
reaches n k [] = false
reaches n k (critical ∷ hs) = reaches n 0 hs
reaches n k (degraded ∷ hs) = reaches n 0 hs
reaches n k (_ ∷ hs) = leb n (k + 1) || reaches n (k + 1) hs

calm :
    (n : ℕ) (s : RuntimeState) → s.in_safe_mode ≡ false → (plan_normal n s).1.in_safe_mode ≡ false
unfolding plan_normal
calm n s out = rw out

-- out of safe mode, only a critical assessment leads back
stays_out :
    (n : ℕ) (hs : List HealthState) (s : RuntimeState)
    → no_critical hs ≡ true
    → s.in_safe_mode ≡ false
    → (plan_all n hs s).in_safe_mode ≡ false
unfolding plan_all plan_recovery
stays_out n [] s quiet out = out
stays_out n (critical ∷ hs) s quiet out = cc quiet
stays_out n (degraded ∷ hs) s quiet out = stays_out n hs _ quiet out
stays_out n (normal ∷ hs) s quiet out = stays_out n hs _ quiet (calm n _ out)
stays_out n (recovering ∷ hs) s quiet out = stays_out n hs _ quiet (calm n _ out)
stays_out n (safe_mode ∷ hs) s quiet out = stays_out n hs _ quiet (calm n _ out)

calm-cases :
    (n : ℕ) (s : RuntimeState)
    → s.in_safe_mode ≡ true
    → ((leb n s.normal_streak ≡ true) × ((plan_normal n s).1.in_safe_mode ≡ false))
      ⊎ ((leb n s.normal_streak ≡ false) × ((plan_normal n s).1 ≡ s))
unfolding plan_normal
calm-cases n s safe = elim (Bool-cases (leb n s.normal_streak)) [
  | inl t ↦ inl (t, simp (safe, t))
  | inr f ↦ inr (f, simp (safe, f))
]

after-calm :
    (n : ℕ) (hs : List HealthState) (s : RuntimeState)
    → no_critical hs ≡ true
    → s.in_safe_mode ≡ true
    → ((plan_all n hs s).in_safe_mode ≡ not (reaches n s.normal_streak hs))
    → (plan_all n hs (plan_normal n s).1).in_safe_mode
      ≡ not (leb n s.normal_streak || reaches n s.normal_streak hs)
after-calm n hs s quiet safe ih = elim (calm-cases n s safe) [
  | inl (t, out) ↦ rw t (stays_out n hs (plan_normal n s).1 quiet out)
  | inr (f, same) ↦ simp (f, same) ih
]

leaves :
    (n : ℕ) (hs : List HealthState) (s : RuntimeState)
    → no_critical hs ≡ true
    → s.in_safe_mode ≡ true
    → (plan_all n hs s).in_safe_mode ≡ not (reaches n s.normal_streak hs)
unfolding plan_all plan_recovery
leaves n [] s quiet safe = safe
leaves n (critical ∷ hs) s quiet safe = cc quiet
leaves n (degraded ∷ hs) s quiet safe = leaves n hs _ quiet safe
leaves n (normal ∷ hs) s quiet safe =
    let t : RuntimeState = record s { normal_streak = s.normal_streak + 1 } in
    after-calm n hs t quiet safe (leaves n hs t quiet safe)
leaves n (recovering ∷ hs) s quiet safe =
    let t : RuntimeState = record s { normal_streak = s.normal_streak + 1 } in
    after-calm n hs t quiet safe (leaves n hs t quiet safe)
leaves n (safe_mode ∷ hs) s quiet safe =
    let t : RuntimeState = record s { normal_streak = s.normal_streak + 1 } in
    after-calm n hs t quiet safe (leaves n hs t quiet safe)

-- After a critical assessment, and any run without another one, the engine is in safe mode unless the
-- policy's number of assessments in a row were not degraded; and if they were, it has left it. This
-- holds whatever came before.
pub plan_all-in_safe_mode :
    (n : ℕ) (before hs : List HealthState) (s : RuntimeState)
    → no_critical hs ≡ true
    → (plan_all n (before ++ critical ∷ hs) s).in_safe_mode ≡ not (reaches n 0 hs)
unfolding plan_all plan_recovery
plan_all-in_safe_mode n [] hs s quiet = leaves n hs _ quiet refl
plan_all-in_safe_mode n (h ∷ before) hs s quiet =
    plan_all-in_safe_mode n before hs (plan_recovery n h s).1 quiet
