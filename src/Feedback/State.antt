-- ===== src/Feedback/State.antt =====
-- The state of app/physiology_effect_feedback.py, its check when it is read back, and its seal.
-- `upper` is `str.upper` and `to_int` is `int`, of a JSON value; `mac` the HMAC under the secret.
use gpt_project_bridge.Base.{
  ℕ, String, Bool, true, false, not, ◌&&◌, Option, none, some, List, [], ◌∷◌, map, Result, ok, err,
  value_error, ok_then, ◌&>◌, require, leb, nat_eq, bool_eq, is_none, any_of, select, ◌==◌,
  if◌then◌else◌,
}
use gpt_project_bridge.Base.Text.{has_text, strip, is_sha256_hex}
use gpt_project_bridge.Json.{
  Json, Fields, null, bool, num, str, obj, opt_str, get, get_or, is_text, truthy, field_count, dict,
  to_fields,
}
use gpt_project_bridge.Json.Dump.{canonical_json}
use gpt_project_bridge.Host.{Host, compare_digest}
use gpt_project_bridge.Auth.{Integer, pos, minus}
use gpt_project_bridge.Physiology.Controller.{
  HealthState, normal, degraded, critical, recovering, safe_mode, health_value,
}

abbrev pub feedback_schema : String
feedback_schema = "matverse.physiology-effect-feedback.v1"

-- `EffectFeedbackPolicy`
pub record EffectFeedbackPolicy : Type 0 where
  pub success_statuses : List String
  pub failures_before_recovery_gate : ℕ

module _ (upper : String → String) where
  -- the statuses that are not blank, stripped and in upper case
  unfoldable pub normalized : List String → List String
  unfolding has_text strip
  normalized statuses = map (λ item. upper (strip item)) (select has_text statuses)

  unique : List String → Bool
  unique [] = true
  unique (s ∷ ss) = not (any_of (λ t. s == t) ss) && unique ss

  some_item : List String → Bool
  some_item [] = false
  some_item (s ∷ ss) = true

  -- its `__post_init__`
  unfoldable pub check_feedback_policy : EffectFeedbackPolicy → Result (Unit {0})
  unfolding normalized unique some_item
  check_feedback_policy p =
      require (some_item (normalized p.success_statuses))
        (value_error "success_statuses must contain at least one non-empty status")
      &> require (unique (normalized p.success_statuses))
          (value_error "success_statuses must be unique case-insensitively")
      &> require (leb 1 p.failures_before_recovery_gate)
          (value_error "failures_before_recovery_gate must be >= 1")

  unfoldable pub accepts : EffectFeedbackPolicy → String → Bool
  unfolding has_text strip
  accepts p status =
      has_text status
      && any_of (λ item. upper (strip item) == upper (strip status)) p.success_statuses

pub record FeedbackState : Type 0 where
  pub failure_streak : ℕ
  pub recovery_required : Bool
  pub recovery_for_cycle_id : Option String
  pub last_effect_status : Option String
  pub last_post_effect_health : Option HealthState
  pub last_feedback_receipt_hash : Option String

abbrev pub empty_feedback : FeedbackState
empty_feedback = record {
  failure_streak = 0;
  recovery_required = false;
  recovery_for_cycle_id = none;
  last_effect_status = none;
  last_post_effect_health = none;
  last_feedback_receipt_hash = none;
}

unfoldable pub health_json : Option HealthState → Json
unfolding health_value
health_json none = null
health_json (some h) = str (health_value h)

-- the state as the dict that the code keeps
unfoldable pub feedback_fields : FeedbackState → Fields
unfolding health_json
feedback_fields s = to_fields (
    ("schema", str feedback_schema)
    ∷ ("failure_streak", num s.failure_streak)
    ∷ ("recovery_required", bool s.recovery_required)
    ∷ ("recovery_for_cycle_id", opt_str s.recovery_for_cycle_id)
    ∷ ("last_effect_status", opt_str s.last_effect_status)
    ∷ ("last_post_effect_health", health_json s.last_post_effect_health)
    ∷ ("last_feedback_receipt_hash", opt_str s.last_feedback_receipt_hash)
    ∷ [])

-- a value that is missing, or null, or a good text
unfoldable pub opt_text : (String → Bool) → String → Option Json → Result (Option String)
opt_text good message none = ok none
opt_text good message (some null) = ok none
opt_text good message (some (str s)) = if good s then ok (some s) else err (value_error message)
opt_text good message (some v) = err (value_error message)

unfoldable pub streak : Integer → Result ℕ
streak (pos n) = ok n
streak (minus n) = err (value_error "failure_streak must be >= 0")

-- `HealthState(text)`
unfoldable pub to_health : String → Result HealthState
unfolding health_value
to_health text =
    if text == health_value normal
    then ok normal
    else if text == health_value degraded
    then ok degraded
    else if text == health_value critical
    then ok critical
    else if text == health_value recovering
    then ok recovering
    else if text == health_value safe_mode
    then ok safe_mode
    else err (value_error "invalid last_post_effect_health")

module _ (H : Host) (to_int : Json → Result Integer) where
  unfoldable pub opt_health : Option Json → Result (Option HealthState)
  unfolding to_health
  opt_health none = ok none
  opt_health (some null) = ok none
  opt_health (some v) = ok_then (to_health (H.py_str v)) (λ h. ok (some h))

  -- `_validate_state` of a dict
  unfoldable pub validate_fields : Fields → Result FeedbackState
  unfolding get opt_text streak opt_health is_sha256_hex
  validate_fields fs =
      require (is_text feedback_schema (some (get_or (str feedback_schema) (get "schema" fs))))
        (value_error "unsupported effect feedback schema")
      &> ok_then (ok_then (to_int (get_or (num 0) (get "failure_streak" fs))) streak) (λ n.
        let required = truthy (get "recovery_required" fs) in
        ok_then
          (opt_text (λ s. not (s == "")) "recovery_for_cycle_id must be a non-empty string or null"
            (get "recovery_for_cycle_id" fs))
          (λ recovery_for.
            require (bool_eq required (not (is_none recovery_for)))
              (value_error "recovery_required and recovery_for_cycle_id are inconsistent")
            &> ok_then
                (opt_text (λ s. true) "last_effect_status must be a string or null"
                  (get "last_effect_status" fs))
                (λ status. ok_then (opt_health (get "last_post_effect_health" fs)) (λ health.
                  ok_then
                    (opt_text is_sha256_hex
                      "last_feedback_receipt_hash must be a SHA-256 hex string or null"
                      (get "last_feedback_receipt_hash" fs))
                    (λ receipt. ok (record {
                      failure_streak = n;
                      recovery_required = required;
                      recovery_for_cycle_id = recovery_for;
                      last_effect_status = status;
                      last_post_effect_health = health;
                      last_feedback_receipt_hash = receipt;
                    }))))))

  unfoldable pub validate_state : Json → Result FeedbackState
  unfolding validate_fields
  validate_state (obj fs) = validate_fields fs
  validate_state _ = err (value_error "invalid effect feedback state")

module _ (mac : String → String) where
  -- `_state_mac`
  unfoldable pub state_mac : Fields → String
  unfolding canonical_json
  state_mac payload = mac (canonical_json (obj payload))

  -- what `_persist_state` writes under its key
  unfoldable pub sealed : Fields → Json
  unfolding state_mac
  sealed payload = dict (("payload", obj payload) ∷ ("state_mac", str (state_mac payload)) ∷ [])

module _ (H : Host) (to_int : Json → Result Integer) (mac : String → String) where
  -- the dict of the two keys that are wanted
  unfoldable pub check_seal : Option Json → Option Json → Result FeedbackState
  unfolding state_mac validate_fields compare_digest
  check_seal (some (obj payload)) (some (str supplied)) =
      ok_then (compare_digest (state_mac mac payload) supplied) (λ same.
        require same (value_error "effect feedback state authentication failed")
        &> validate_fields H to_int payload)
  check_seal _ _ = err (value_error "invalid persisted effect feedback envelope")

  unfoldable pub load_fields : Fields → Result FeedbackState
  unfolding check_seal get field_count
  load_fields fs =
      require
        (nat_eq (field_count fs) 2
          && (not (is_none (get "payload" fs)) && not (is_none (get "state_mac" fs))))
        (value_error "invalid persisted effect feedback envelope")
      &> check_seal (get "payload" fs) (get "state_mac" fs)

  -- `_load_persisted_state`
  unfoldable pub load_persisted_state : Json → Result FeedbackState
  unfolding load_fields
  load_persisted_state (obj fs) = load_fields fs
  load_persisted_state _ = err (value_error "invalid persisted effect feedback envelope")
