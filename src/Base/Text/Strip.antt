-- ===== src/Base/Text/Strip.antt =====
-- Stripping a stripped text changes nothing.
use Prim.Native.Char.{Char}
use Prim.Native.String.{String, [], ◌∷◌}
use mathlib.Core.Path.{◌≡◌, refl, ap, ◌∙◌}
use mathlib.Core.Logic.{inl, inr}
use mathlib.Core.Bool.{true, false}
use native.Mathlib.Omega.{arith}
use package.gpt_project_bridge.Base.Tests.{Bool-cases}
use package.gpt_project_bridge.Base.Text.{is_space, has_text, strip_left, strip_right, strip}

-- a text with nothing to strip at its left end
Starts : String → Type 0
Starts [] = Unit
Starts (c ∷ s) = is_space c ≡ false

strip_left-Starts : (s : String) → Starts (strip_left s)
unfolding strip_left Starts
strip_left-Starts [] = tt
strip_left-Starts (c ∷ s) = elim (Bool-cases (is_space c)) [
  | inl t ↦ rw t (strip_left-Starts s)
  | inr f ↦ rw f f
]

strip_right-Starts : (s : String) → Starts s → Starts (strip_right s)
unfolding strip_right Starts
strip_right-Starts [] h = tt
strip_right-Starts (c ∷ s) h = elim (Bool-cases (has_text (c ∷ s))) [
  | inl t ↦ rw t h
  | inr f ↦ rw f tt
]

strip_left-same : (s : String) → Starts s → strip_left s ≡ s
unfolding strip_left Starts
strip_left-same [] h = refl
strip_left-same (c ∷ s) h = rw h

has_text-strip_right : (s : String) → has_text (strip_right s) ≡ has_text s
unfolding strip_right has_text
has_text-strip_right [] = refl
has_text-strip_right (c ∷ s) = elim (Bool-cases (is_space c)) [
  | inr f ↦ rw (f, f)
  | inl t ↦ elim (Bool-cases (has_text s)) [
    | inl u ↦ ground (arith, has_text-strip_right s)
    | inr u ↦ rw (t, u)
  ]
]

kept : (c : Char) (s : String) → has_text (c ∷ s) ≡ true → has_text (c ∷ strip_right s) ≡ true
unfolding has_text
kept c s h = rw (has_text-strip_right s) h

strip_right-again : (s : String) → strip_right (strip_right s) ≡ strip_right s
unfolding strip_right
strip_right-again [] = refl
strip_right-again (c ∷ s) = elim (Bool-cases (has_text (c ∷ s))) [
  | inr f ↦ rw f
  | inl t ↦ rw (t, kept c s t) (ap (λ r. c ∷ r) (strip_right-again s))
]

pub strip-strip : (s : String) → strip (strip s) ≡ strip s
unfolding strip
strip-strip s =
    ap strip_right (
      strip_left-same (strip_right (strip_left s))
        (strip_right-Starts (strip_left s) (strip_left-Starts s)))
    ∙ strip_right-again (strip_left s)

has_text-strip_left : (s : String) → has_text (strip_left s) ≡ has_text s
unfolding strip_left has_text
has_text-strip_left [] = refl
has_text-strip_left (c ∷ s) = elim (Bool-cases (is_space c)) [
  | inl t ↦ rw (t, has_text-strip_left s)
  | inr f ↦ rw f (rw f)
]

pub has_text-strip : (s : String) → has_text (strip s) ≡ has_text s
unfolding strip
has_text-strip s = has_text-strip_right (strip_left s) ∙ has_text-strip_left s
