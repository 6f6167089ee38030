-- ===== src/Physiology/Controller.antt =====
-- `HomeostaticController` of app/physiology.py and the recovery plan of `PhysiologyEngine`. A float is
-- a value of a type that comes with the comparisons and the division that Python has for it.
pub mod Assess
pub mod Streak
use gpt_project_bridge.Base.{
  ℕ, ◌+◌, String, Bool, true, false, not, ◌&&◌, Option, none, some, List, [], ◌∷◌, ◌++◌, Result, ok,
  err, value_error, ◌&>◌, require, ltb, leb, nat_eq, if◌then◌else◌, when,
}
use gpt_project_bridge.Json.{Json}

-- What the program uses of `float`.
pub record Floats : Type 1 where
  pub F : Type 0
  pub zero_f : F
  pub one_f : F
  -- `a < b` and `a <= b`
  pub lt : F → F → Bool
  pub le : F → F → Bool
  -- `a / b` of two integers
  pub ratio : ℕ → ℕ → F
  -- the number that `json.dumps` writes
  pub dump : F → Json

pub data HealthState : Type 0 where
  normal degraded critical recovering safe_mode : HealthState

unfoldable pub health_value : HealthState → String
health_value normal = "NORMAL"
health_value degraded = "DEGRADED"
health_value critical = "CRITICAL"
health_value recovering = "RECOVERING"
health_value safe_mode = "SAFE_MODE"

pub data RecoveryAction : Type 0 where
  nothing throttle enter_safe_mode exit_safe_mode : RecoveryAction

unfoldable pub action_value : RecoveryAction → String
action_value nothing = "NONE"
action_value throttle = "THROTTLE"
action_value enter_safe_mode = "ENTER_SAFE_MODE"
action_value exit_safe_mode = "EXIT_SAFE_MODE"

pub record HealthAssessment : Type 0 where
  pub state : HealthState
  pub reasons : List String

module _ (R : Floats) where
  pub record TelemetrySample : Type 0 where
    pub monotonic_ns : ℕ
    pub process_time_ns : ℕ
    pub disk_total_bytes : ℕ
    pub disk_used_bytes : ℕ
    pub disk_free_bytes : ℕ
    pub rss_bytes : Option ℕ
    pub load_1m : Option R.F
    pub instruments : List (String × String)

  unfoldable pub disk_free_ratio : TelemetrySample → R.F
  disk_free_ratio s =
      if nat_eq s.disk_total_bytes 0 then R.zero_f else R.ratio s.disk_free_bytes s.disk_total_bytes

  pub record HomeostaticPolicy : Type 0 where
    pub min_disk_free_ratio : R.F
    pub max_rss_bytes : Option ℕ
    pub degraded_disk_free_ratio : R.F
    pub normal_streak_to_exit_safe_mode : ℕ

  positive : Option ℕ → Bool
  positive none = true
  positive (some n) = ltb 0 n

  -- `__post_init__`
  unfoldable pub check_policy : HomeostaticPolicy → Result (Unit {0})
  unfolding positive
  check_policy p =
      require
        (R.le R.zero_f p.min_disk_free_ratio
          && (R.lt p.min_disk_free_ratio p.degraded_disk_free_ratio
              && R.le p.degraded_disk_free_ratio R.one_f))
        (value_error "disk thresholds must satisfy 0 <= critical < degraded <= 1")
      &> require (positive p.max_rss_bytes)
          (value_error "max_rss_bytes must be positive when configured")
      &> require (leb 1 p.normal_streak_to_exit_safe_mode)
          (value_error "normal_streak_to_exit_safe_mode must be >= 1")

  -- `max_rss_bytes is not None and rss_bytes is not None and rss_bytes > max_rss_bytes`
  unfoldable pub rss_above : Option ℕ → Option ℕ → Bool
  rss_above (some limit) (some rss) = ltb limit rss
  rss_above _ _ = false

  unfoldable pub verdict : (critical_reasons degraded_reasons : List String) → HealthAssessment
  verdict (c ∷ cs) ds = record { state = critical; reasons = c ∷ cs }
  verdict [] (d ∷ ds) = record { state = degraded; reasons = d ∷ ds }
  verdict [] [] = record { state = normal; reasons = [] }

  unfoldable pub assess : HomeostaticPolicy → TelemetrySample → Bool → HealthAssessment
  assess p s journal_ok =
      let low = R.lt (disk_free_ratio s) p.min_disk_free_ratio in
      verdict
        (when (not journal_ok) "journal_integrity_failure"
          ++ (when low "disk_free_below_critical"
              ++ when (rss_above p.max_rss_bytes s.rss_bytes) "rss_above_configured_limit"))
        (when (not low && R.lt (disk_free_ratio s) p.degraded_disk_free_ratio)
          "disk_free_below_degraded")

-- The runtime state of the engine.
pub record RuntimeState : Type 0 where
  pub cycle_seq : ℕ
  pub in_safe_mode : Bool
  pub normal_streak : ℕ
  pub throttled : Bool

-- a health that is neither critical nor degraded, with the streak already counted
unfoldable pub plan_normal : ℕ → RuntimeState → RecoveryAction × RuntimeState
plan_normal exit_streak s =
    if s.in_safe_mode
    then if leb exit_streak s.normal_streak
      then (exit_safe_mode, record s { in_safe_mode = false; throttled = false })
      else (nothing, s)
    else (nothing, record s { throttled = false })

-- `_plan_recovery`, by the streak that the policy asks for
unfoldable pub plan_recovery : ℕ → HealthState → RuntimeState → RecoveryAction × RuntimeState
plan_recovery exit_streak critical s =
    (enter_safe_mode, record s { in_safe_mode = true; throttled = true; normal_streak = 0 })
plan_recovery exit_streak degraded s = (throttle, record s { throttled = true; normal_streak = 0 })
plan_recovery exit_streak _ s =
    plan_normal exit_streak (record s { normal_streak = s.normal_streak + 1 })
