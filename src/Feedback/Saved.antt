-- ===== src/Feedback/Saved.antt =====
-- The saved state of app/physiology_effect_feedback.py and what is read back of it.
use gpt_project_bridge.Base.{
  ℕ, String, ◌≡◌, refl, ap, ◌∙◌, Bool, true, false, not, Option, none, some, Result, ok, is_none,
  bool_eq, ◌==◌, eq_refl,
}
use gpt_project_bridge.Base.Text.{is_sha256_hex}
use gpt_project_bridge.Base.Text.Ascii.{is_ascii}
use gpt_project_bridge.Json.{Json, Fields, num, str, get, opt_str}
use gpt_project_bridge.Host.{Host, compare_digest}
use gpt_project_bridge.Auth.{Integer, pos}
use gpt_project_bridge.Physiology.Controller.{
  HealthState, normal, degraded, critical, recovering, safe_mode, health_value,
}
use gpt_project_bridge.Feedback.State.{
  FeedbackState, health_json, feedback_fields, opt_text, to_health, opt_health, streak,
  validate_fields, state_mac, sealed, check_seal, load_fields, load_persisted_state,
}

-- a text, if there is one, that passes a test
abbrev pub holds_of : (String → Bool) → Option String → Bool
holds_of good none = true
holds_of good (some s) = good s

-- What the state of the feedback is like: recovery is required exactly if a cycle is named, whose name
-- is not empty, and the receipt is a digest.
pub record IsFeedback (s : FeedbackState) : Type 0 where
  pub consistent : s.recovery_required ≡ not (is_none s.recovery_for_cycle_id)
  pub named : holds_of (λ c. not (c == "")) s.recovery_for_cycle_id ≡ true
  pub digest : holds_of is_sha256_hex s.last_feedback_receipt_hash ≡ true

opt_text-opt_str :
    (good : String → Bool) (message : String) (o : Option String)
    → holds_of good o ≡ true
    → opt_text good message (some (opt_str o)) ≡ ok o
unfolding opt_text
opt_text-opt_str good message none h = refl
opt_text-opt_str good message (some s) h = rw h refl

to_health-health_value : (h : HealthState) → to_health (health_value h) ≡ ok h
unfolding to_health health_value
to_health-health_value normal = refl
to_health-health_value degraded = refl
to_health-health_value critical = refl
to_health-health_value recovering = refl
to_health-health_value safe_mode = refl

holds_always : (o : Option String) → holds_of (λ s. true) o ≡ true
holds_always none = refl
holds_always (some s) = refl

bool_eq_refl : (b : Bool) → bool_eq b b ≡ true
bool_eq_refl true = refl
bool_eq_refl false = refl

module _ (H : Host) (to_int : Json → Result Integer) (mac : String → String)
    (texts : (s : String) → H.py_str (str s) ≡ s) (ints : (n : ℕ) → to_int (num n) ≡ ok (pos n))
    (ascii : (s : String) → is_ascii (mac s) ≡ true) where
  mac_ascii : (fs : Fields) → is_ascii (state_mac mac fs) ≡ true
  unfolding state_mac
  mac_ascii fs = ascii _

  opt_health-health_json :
      (o : Option HealthState) → opt_health H to_int (some (health_json o)) ≡ ok o
  unfolding opt_health health_json
  opt_health-health_json none = refl
  opt_health-health_json (some h) = rw (texts (health_value h), to_health-health_value h) refl

  validate_fields-feedback_fields :
      (s : FeedbackState) → IsFeedback s → validate_fields H to_int (feedback_fields s) ≡ ok s
  unfolding validate_fields feedback_fields get streak
  validate_fields-feedback_fields s h =
      let for =
        opt_text-opt_str (λ c. not (c == ""))
          "recovery_for_cycle_id must be a non-empty string or null" s.recovery_for_cycle_id
          h.named in
      let status =
        opt_text-opt_str (λ c. true) "last_effect_status must be a string or null"
          s.last_effect_status (holds_always s.last_effect_status) in
      let health = opt_health-health_json s.last_post_effect_health in
      let digest =
        opt_text-opt_str is_sha256_hex
          "last_feedback_receipt_hash must be a SHA-256 hex string or null"
          s.last_feedback_receipt_hash h.digest in
      let named = not (is_none s.recovery_for_cycle_id) in
      let agree : bool_eq s.recovery_required named ≡ true =
        ap (λ b. bool_eq b named) h.consistent ∙ bool_eq_refl named in
      rw (ints s.failure_streak) (rw for (rw agree (rw status (rw health (rw digest refl)))))

  -- A sealed state of the feedback is read back as it was.
  pub load_persisted_state-sealed :
      (s : FeedbackState)
      → IsFeedback s
      → load_persisted_state H to_int mac (sealed mac (feedback_fields s)) ≡ ok s
  unfolding load_persisted_state load_fields sealed check_seal compare_digest get
  load_persisted_state-sealed s h =
      let m = state_mac mac (feedback_fields s) in
      rw (mac_ascii (feedback_fields s), eq_refl m) (validate_fields-feedback_fields s h)
