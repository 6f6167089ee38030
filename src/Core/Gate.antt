-- ===== src/Core/Gate.antt =====
-- When the human-data boundary and the Ω gate of app/core.py let a request pass.
use gpt_project_bridge.Base.{
  String, ◌≡◌, ◌↔◌, ◌⊎◌, Bool, true, false, some, arith, refl, sym, ap, ◌∙◌, not, ◌&&◌, any_of,
  ◌==◌, if◌then◌else◌,
}
use gpt_project_bridge.Json.{Fields, get, is_true, is_text, truthy}
use gpt_project_bridge.Core.{
  Decision, pass, block, hold, HdbResult, Checks, blocked_actions, boundary, evaluate_hdb,
  omega_gate,
}

-- What the boundary asks of human data that is to be represented.
pub record IsConsented (human : Fields) : Type 0 where
  pub not_serialized : is_true (get "serialize_human" human) ≡ false
  pub third_party :
      (is_true (get "third_party" human) ≡ false)
      ⊎ (is_true (get "third_party_consent" human) ≡ true)
  pub not_secret : is_text "SECRET" (get "sensitivity" human) ≡ false
  pub consent : is_true (get "consent" human) ≡ true
  pub purpose : truthy (get "purpose" human) ≡ true

boundary-pass :
    (s t a x c p : Bool)
    → (boundary s t a x c p).decision ≡ pass
    → (s ≡ false) × ((t ≡ false) ⊎ (a ≡ true)) × (x ≡ false) × (c ≡ true) × (p ≡ true)
unfolding boundary
boundary-pass s t a x c p h = ground arith

boundary-pass_of :
    (s t a x c p : Bool)
    → s ≡ false
    → (t ≡ false) ⊎ (a ≡ true)
    → x ≡ false
    → c ≡ true
    → p ≡ true
    → (boundary s t a x c p).decision ≡ pass
unfolding boundary
boundary-pass_of s t a x c p hs ht hx hc hp = ground arith

-- The boundary lets human data pass exactly when it is not to be serialised, no third party is
-- involved or the third party agreed, it is not secret, consent is given and a purpose is bound.
pub evaluate_hdb-pass_iff :
    (human : Fields) → ((evaluate_hdb (some human)).decision ≡ pass) ↔ IsConsented human
unfolding evaluate_hdb
evaluate_hdb-pass_iff human = (
  λ h.
      let (s, t, x, c, p) = boundary-pass _ _ _ _ _ _ h in
      record { not_serialized = s; third_party = t; not_secret = x; consent = c; purpose = p },
  λ h. boundary-pass_of _ _ _ _ _ _ h.not_serialized h.third_party h.not_secret h.consent h.purpose,
)

-- Every input of the gate that matters is in order.
pub record IsAdmissible (hdb : HdbResult) (c : Checks) : Type 0 where
  pub ontology : c.ontology_ok ≡ true
  pub boundary : hdb.decision ≡ pass
  pub signature : c.signature_valid ≡ true
  pub transition : c.transition_valid ≡ true

-- the last three guards and the answer behind them
guards : Bool → Bool → Bool → Decision × String
guards critical signature_valid transition_valid =
    if not signature_valid
    then (block, "invalid signature")
    else if signature_valid && not transition_valid
    then (block, "valid_signature != valid_transition")
    else if critical && not transition_valid
    then (block, "critical action denied")
    else (pass, "admissible transition")

-- the last guard is never reached
guards_eq : (critical s t : Bool) → guards critical s t ≡ guards false s t
unfolding guards
guards_eq critical false t = refl
guards_eq critical true false = refl
guards_eq true true true = refl
guards_eq false true true = refl

answer : HdbResult → Bool → Decision × String → Decision × String
answer hdb ontology_ok rest =
    if not ontology_ok
    then (block, "ontology violation")
    else elim hdb.decision [ block ↦ (block, hdb.reason) | hold ↦ (hold, hdb.reason) | pass ↦ rest ]

omega_gate-answer :
    (hdb : HdbResult) (action : String) (c : Checks)
    → omega_gate hdb action c
      ≡ answer hdb c.ontology_ok (guards false c.signature_valid c.transition_valid)
unfolding omega_gate answer guards
omega_gate-answer hdb action c =
    ap (answer hdb c.ontology_ok)
      (guards_eq (any_of (λ a. a == action) blocked_actions) c.signature_valid c.transition_valid)

answer-pass :
    (d : Decision) (r : String) (o s t : Bool)
    → ((answer (record { decision = d; reason = r }) o (guards false s t)).0 ≡ pass)
      ↔ ((o ≡ true) × (d ≡ pass) × (s ≡ true) × (t ≡ true))
unfolding answer guards
answer-pass d r false s t = (λ h. cc h, λ h. cc h.0)
answer-pass block r true s t = (λ h. cc h, λ h. cc h.1)
answer-pass hold r true s t = (λ h. cc h, λ h. cc h.1)
answer-pass pass r true false t = (λ h. cc h, λ h. cc h.2)
answer-pass pass r true true false = (λ h. cc h, λ h. cc h.3)
answer-pass pass r true true true = (λ h. (refl, refl, refl, refl), λ h. refl)

answer-hold :
    (d : Decision) (r : String) (o s t : Bool)
    → ((answer (record { decision = d; reason = r }) o (guards false s t)).0 ≡ hold)
      ↔ ((o ≡ true) × (d ≡ hold))
unfolding answer guards
answer-hold d r false s t = (λ h. cc h, λ h. cc h.0)
answer-hold block r true s t = (λ h. cc h, λ h. cc h.1)
answer-hold hold r true s t = (λ h. (refl, refl), λ h. refl)
answer-hold pass r true false t = (λ h. cc h, λ h. cc h.1)
answer-hold pass r true true false = (λ h. cc h, λ h. cc h.1)
answer-hold pass r true true true = (λ h. cc h, λ h. cc h.1)

-- The gate passes exactly when the ontology, the boundary, the signature and the transition are all
-- in order; it holds only if the ontology is in order and the boundary holds; and the action that
-- is asked for never changes its answer.
pub omega_gate_lem :
    (hdb : HdbResult) (action other : String) (c : Checks)
    → (((omega_gate hdb action c).0 ≡ pass) ↔ IsAdmissible hdb c)
      × (((omega_gate hdb action c).0 ≡ hold) ↔ ((c.ontology_ok ≡ true) × (hdb.decision ≡ hold)))
      × (omega_gate hdb action c ≡ omega_gate hdb other c)
omega_gate_lem hdb action other c =
    let same = omega_gate-answer hdb action c in
    let passes =
      answer-pass hdb.decision hdb.reason c.ontology_ok c.signature_valid c.transition_valid in
    let holds =
      answer-hold hdb.decision hdb.reason c.ontology_ok c.signature_valid c.transition_valid in
    (
      (
        λ h.
            let (o, d, s, t) = passes.0 (sym (ap (λ a. a.0) same) ∙ h) in
            record { ontology = o; boundary = d; signature = s; transition = t },
        λ h. ap (λ a. a.0) same ∙ passes.1 (h.ontology, h.boundary, h.signature, h.transition),
      ),
      (λ h. holds.0 (sym (ap (λ a. a.0) same) ∙ h), λ h. ap (λ a. a.0) same ∙ holds.1 h),
      same ∙ sym (omega_gate-answer hdb other c),
    )
