-- ===== src/Feedback/Streak.antt =====
-- When the recovery gate of app/physiology_effect_feedback.py is closed, and for which cycle.
use gpt_project_bridge.Base.{
  ℕ, zero, suc, ◌+◌, ◌-◌, ◌≤◌, ◌<◌, String, ◌≡◌, refl, sym, ap, ◌∙◌, inl, inr, Bool, true, false,
  Option, none, some, List, [], ◌∷◌, ◌++◌, length, length-append, leb, Bool-cases, arith,
}
use gpt_project_bridge.Feedback.State.{FeedbackState}
use gpt_project_bridge.Feedback.Loop.{after_effect, failed_once}

-- the cycles whose effects failed since the last success, behind those of before
unfoldable pub failures : List String → List (String × Bool) → List String
failures ids [] = ids
failures ids ((cycle_id, true) ∷ es) = failures [] es
failures ids ((cycle_id, false) ∷ es) = failures (ids ++ cycle_id ∷ []) es

abbrev pub nth : ℕ → List String → Option String
nth n [] = none
nth zero (x ∷ xs) = some x
nth (suc n) (x ∷ xs) = nth n xs

-- the state that the failures of these cycles leave
pub record IsAfter (limit : ℕ) (ids : List String) (s : FeedbackState) : Type 0 where
  pub streak : s.failure_streak ≡ length ids
  pub required : s.recovery_required ≡ leb limit (length ids)
  pub cycle : s.recovery_for_cycle_id ≡ nth (limit - 1) ids

-- by where the number stands to the length
nth_below :
    (n : ℕ) (xs : List String) (x : String)
    → n < length xs
    → (y : String) × (nth n xs ≡ some y) × (nth n (xs ++ x ∷ []) ≡ some y)
nth_below n [] x h = absurd (omega (arith, h))
nth_below zero (y ∷ xs) x h = (y, refl, refl)
nth_below (suc n) (y ∷ xs) x h = nth_below n xs x (omega (arith, h))

nth_at :
    (n : ℕ) (xs : List String) (x : String)
    → n ≡ length xs
    → (nth n xs ≡ none) × (nth n (xs ++ x ∷ []) ≡ some x)
nth_at zero [] x h = (refl, refl)
nth_at (suc n) [] x h = absurd (omega (arith, h))
nth_at zero (y ∷ xs) x h = absurd (omega (arith, h))
nth_at (suc n) (y ∷ xs) x h = nth_at n xs x (omega (arith, h))

nth_beyond :
    (n : ℕ) (xs : List String) (x : String)
    → length xs < n
    → (nth n xs ≡ none) × (nth n (xs ++ x ∷ []) ≡ none)
nth_beyond zero xs x h = absurd (omega (arith, h))
nth_beyond (suc n) [] x h = (refl, refl)
nth_beyond (suc n) (y ∷ xs) x h = nth_beyond n xs x (omega (arith, h))

or_new : Option String → String → Option String
or_new o c = elim o [ none ↦ some c | some d ↦ some d ]

nth-or_new :
    (n : ℕ) (xs : List String) (x : String)
    → n ≤ length xs
    → or_new (nth n xs) x ≡ nth n (xs ++ x ∷ [])
unfolding or_new
nth-or_new n xs x h = elim (Bool-cases (leb (suc n) (length xs))) [
  | inl t ↦ let (y, e, f) = nth_below n xs x (ground (arith, t)) in rw (e, f) refl
  | inr t ↦ let (e, f) = nth_at n xs x (ground (arith, t, h)) in rw (e, f) refl
]

module _ (limit : ℕ) (at_least : 1 ≤ limit) where
  low : (n : ℕ) → leb limit (n + 1) ≡ false → leb limit n ≡ false
  low n h = ground (arith, h)

  failed_once-IsAfter :
      (cycle_id : String) (ids : List String) (s : FeedbackState)
      → IsAfter limit ids s
      → IsAfter limit (ids ++ cycle_id ∷ []) (failed_once limit cycle_id s)
  unfolding failed_once or_new
  failed_once-IsAfter cycle_id ids s h =
      let more = length-append ids (cycle_id ∷ []) in
      elim (Bool-cases (leb limit (s.failure_streak + 1))) [
        | inl t ↦ rw t (record {
          streak = omega (arith, more, h.streak);
          required =
              let same = ap (λ n. leb limit n) (ap (λ n. n + 1) h.streak ∙ sym more) in
              sym t ∙ same;
          cycle =
              ap (λ o. or_new o cycle_id) h.cycle
              ∙ nth-or_new (limit - 1) ids cycle_id (ground (arith, t, h.streak, at_least));
        })
        | inr t ↦
            let (before, after) =
              nth_beyond (limit - 1) ids cycle_id (ground (arith, t, h.streak, at_least)) in
            rw t (record {
              streak = omega (arith, more, h.streak);
              required =
                  let same = ap (λ n. leb limit n) (ap (λ n. n + 1) h.streak ∙ sym more) in
                  h.required
                  ∙ low (length ids) (sym (ap (λ n. leb limit (n + 1)) h.streak) ∙ t)
                  ∙ sym t
                  ∙ same;
              cycle = h.cycle ∙ before ∙ sym after;
            })
      ]

  -- one effect more
  pub after_effect-IsAfter :
      (cycle_id : String) (success : Bool) (ids : List String) (s : FeedbackState)
      → IsAfter limit ids s
      → IsAfter limit
          (failures ids ((cycle_id, success) ∷ []))
          (after_effect limit cycle_id success s)
  unfolding failures after_effect
  after_effect-IsAfter cycle_id true ids s h = record {
    streak = refl;
    required = ground (arith, at_least);
    cycle = refl;
  }
  after_effect-IsAfter cycle_id false ids s h = failed_once-IsAfter cycle_id ids s h
