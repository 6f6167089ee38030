-- ===== src/Physiology/Controller/Assess.antt =====
-- When the controller of app/physiology.py calls the health critical, degraded or normal.
use gpt_project_bridge.Base.{
  ◌≡◌, refl, ◌↔◌, ◌⊎◌, inl, inr, Bool, true, false, not, ◌&&◌, ◌++◌, when,
}
use gpt_project_bridge.Physiology.Controller.{
  Floats, HealthAssessment, normal, degraded, critical, TelemetrySample, HomeostaticPolicy,
  disk_free_ratio, rss_above, verdict, assess,
}

-- over the answers of the tests: the journal, the two thresholds of the disk, the memory
judged : Floats → (ok low above warm : Bool) → HealthAssessment
judged R ok low above warm =
    verdict R
      (when (not ok) "journal_integrity_failure"
        ++ (when low "disk_free_below_critical" ++ when above "rss_above_configured_limit"))
      (when (not low && warm) "disk_free_below_degraded")

abbrev pub IsBad : (ok low above : Bool) → Type 0
IsBad ok low above = (ok ≡ false) ⊎ ((low ≡ true) ⊎ (above ≡ true))

fine : IsBad true false false → ⊥
fine (inl e) = cc e
fine (inr (inl e)) = cc e
fine (inr (inr e)) = cc e

judged-critical :
    (R : Floats) (ok low above warm : Bool)
    → ((judged R ok low above warm).state ≡ critical) ↔ IsBad ok low above
unfolding judged verdict
judged-critical R false low above warm = (λ h. inl refl, λ h. refl)
judged-critical R true true above warm = (λ h. inr (inl refl), λ h. refl)
judged-critical R true false true warm = (λ h. inr (inr refl), λ h. refl)
judged-critical R true false false true = (λ h. cc h, λ h. absurd (fine h))
judged-critical R true false false false = (λ h. cc h, λ h. absurd (fine h))

judged-degraded :
    (R : Floats) (ok low above warm : Bool)
    → ((judged R ok low above warm).state ≡ degraded) ↔ ((IsBad ok low above → ⊥) × (warm ≡ true))
unfolding judged verdict
judged-degraded R false low above warm = (λ h. cc h, λ h. absurd (h.0 (inl refl)))
judged-degraded R true true above warm = (λ h. cc h, λ h. absurd (h.0 (inr (inl refl))))
judged-degraded R true false true warm = (λ h. cc h, λ h. absurd (h.0 (inr (inr refl))))
judged-degraded R true false false true = (λ h. (fine, refl), λ h. refl)
judged-degraded R true false false false = (λ h. cc h, λ h. cc h.1)

judged-three :
    (R : Floats) (ok low above warm : Bool)
    → let state = (judged R ok low above warm).state in
      (state ≡ critical) ⊎ ((state ≡ degraded) ⊎ (state ≡ normal))
unfolding judged verdict
judged-three R false low above warm = inl refl
judged-three R true true above warm = inl refl
judged-three R true false true warm = inl refl
judged-three R true false false true = inr (inl refl)
judged-three R true false false false = inr (inr refl)

-- The health is critical exactly if the journal is broken, the free share of the disk is below the
-- lower threshold or the memory is above its limit; it is degraded exactly if none of these holds and
-- the free share is below the upper threshold; and it is always critical, degraded or normal.
pub assess_lem :
    (R : Floats) (p : HomeostaticPolicy R) (s : TelemetrySample R) (journal_ok : Bool)
    → let state = (assess R p s journal_ok).state in
      let low = R.lt (disk_free_ratio R s) p.min_disk_free_ratio in
      let above = rss_above R p.max_rss_bytes s.rss_bytes in
      ((state ≡ critical) ↔ IsBad journal_ok low above)
      × ((state ≡ degraded) ↔ (
          (IsBad journal_ok low above → ⊥)
          × (R.lt (disk_free_ratio R s) p.degraded_disk_free_ratio ≡ true)))
      × ((state ≡ critical) ⊎ ((state ≡ degraded) ⊎ (state ≡ normal)))
unfolding assess judged
assess_lem R p s journal_ok =
    let low : Bool = R.lt (disk_free_ratio R s) p.min_disk_free_ratio in
    let above : Bool = rss_above R p.max_rss_bytes s.rss_bytes in
    let warm : Bool = R.lt (disk_free_ratio R s) p.degraded_disk_free_ratio in
    (
      judged-critical R journal_ok low above warm,
      judged-degraded R journal_ok low above warm,
      judged-three R journal_ok low above warm,
    )
