-- ===== src/Base/Lists.antt =====
-- Lists measured by native numbers, searched and filtered by Boolean tests.
use Prim.Native.Nat.{ℕ, suc, ◌+◌, max}
use mathlib.Core.Path.{◌≡◌, refl, subst}
use mathlib.Core.Logic.{inl, inr}
use mathlib.Core.Bool.{Bool, true, false, ◌&&◌, ◌||◌}
use mathlib.Core.Option.{Option, none, some}
use mathlib.Core.List.{List, [], ◌∷◌, ◌++◌}
use native.Mathlib.Omega.{arith}
use package.gpt_project_bridge.Base.Tests.{Bool-cases, leb, if◌then◌else◌}

pub some_inj {ℓ} : {A : Type ℓ} {x y : A} → some x ≡ some y → x ≡ y
some_inj e = cc

module _ {ℓ} {A : Type ℓ} where
  abbrev pub length : List A → ℕ
  length [] = 0
  length (x ∷ xs) = suc (length xs)

  pub length-append : (xs ys : List A) → length (xs ++ ys) ≡ length xs + length ys
  length-append [] ys = omega arith
  length-append (x ∷ xs) ys = omega (arith, length-append xs ys)

  -- `xs[-1]`, if there is one
  abbrev pub last? : List A → Option A
  last? [] = none
  last? (x ∷ xs) = elim (last? xs) [ none ↦ some x | some y ↦ some y ]

  pub last?-append : (xs : List A) (y : A) → last? (xs ++ y ∷ []) ≡ some y
  last?-append [] y = refl
  last?-append (x ∷ xs) y = rw (last?-append xs y)

  -- `SELECT … WHERE p` with `fetchone()`
  abbrev pub find_first : (A → Bool) → List A → Option A
  find_first p [] = none
  find_first p (x ∷ xs) = if p x then some x else find_first p xs

  -- `SELECT … WHERE p` with `fetchall()`
  abbrev pub select : (A → Bool) → List A → List A
  select p [] = []
  select p (x ∷ xs) = let rest = select p xs in if p x then x ∷ rest else rest

  abbrev pub any_of : (A → Bool) → List A → Bool
  any_of p [] = false
  any_of p (x ∷ xs) = p x || any_of p xs

  abbrev pub all_of : (A → Bool) → List A → Bool
  all_of p [] = true
  all_of p (x ∷ xs) = p x && all_of p xs

  -- A predicate on every element, by recursion.
  abbrev pub All {κ} : (A → Type κ) → List A → Type κ
  All P [] = Unit
  All P (x ∷ xs) = P x × All P xs

  pub All-append {κ} : (P : A → Type κ) (xs ys : List A) → All P xs → All P ys → All P (xs ++ ys)
  All-append P [] ys h k = k
  All-append P (x ∷ xs) ys h k = (h.0, All-append P xs ys h.1 k)

  pub find_first-eq-some :
      (p : A → Bool) (xs : List A) (x : A) → find_first p xs ≡ some x → p x ≡ true
  find_first-eq-some p [] x h = cc
  find_first-eq-some p (y ∷ ys) x h = ground (arith, find_first-eq-some p ys x)

  pub find_first-All {κ} :
      (P : A → Type κ) (p : A → Bool) (xs : List A) (x : A)
      → All P xs
      → find_first p xs ≡ some x
      → P x
  find_first-All P p [] x h e = cc
  find_first-All P p (y ∷ ys) x h e = elim (Bool-cases (p y)) [
    | inl q ↦ subst P (some_inj (rw q at e)) h.0
    | inr q ↦ find_first-All P p ys x h.1 (rw q at e)
  ]

  -- `max(map(f, xs), default=0)`
  abbrev pub max_of : (A → ℕ) → List A → ℕ
  max_of f [] = 0
  max_of f (x ∷ xs) = max (f x) (max_of f xs)

  abbrev pub count_of : (A → Bool) → List A → ℕ
  count_of p [] = 0
  count_of p (x ∷ xs) = if p x then suc (count_of p xs) else count_of p xs

  -- `UPDATE … WHERE p`
  abbrev pub update_where : (A → Bool) → (A → A) → List A → List A
  update_where p f [] = []
  update_where p f (x ∷ xs) = (if p x then f x else x) ∷ update_where p f xs

  insert_by : (A → ℕ) → A → List A → List A
  insert_by key x [] = x ∷ []
  insert_by key x (y ∷ ys) =
      let rest = insert_by key x ys in if leb (key x) (key y) then x ∷ y ∷ ys else y ∷ rest

  -- `ORDER BY key`
  unfoldable pub sort_by : (A → ℕ) → List A → List A
  unfolding insert_by
  sort_by key [] = []
  sort_by key (x ∷ xs) = insert_by key x (sort_by key xs)

  pub find_first-append :
      (p : A → Bool) (xs ys : List A) (x : A)
      → find_first p xs ≡ some x
      → find_first p (xs ++ ys) ≡ some x
  find_first-append p [] ys x h = cc
  find_first-append p (y ∷ xs) ys x h = ground (arith, find_first-append p xs ys x)

  pub All-map {κ λ'} :
      (P : A → Type κ) (Q : A → Type λ')
      → ((x : A) → P x → Q x)
      → (xs : List A) → All P xs
      → All Q xs
  All-map P Q f [] h = tt
  All-map P Q f (x ∷ xs) h = (f x h.0, All-map P Q f xs h.1)

  pub select-append :
      (p : A → Bool) (xs ys : List A) → select p (xs ++ ys) ≡ select p xs ++ select p ys
  select-append p [] ys = refl
  select-append p (x ∷ xs) ys = ground (arith, select-append p xs ys)

  any_of-insert_by :
      (p : A → Bool) (key : A → ℕ) (x : A) (ys : List A)
      → any_of p (insert_by key x ys) ≡ (p x || any_of p ys)
  unfolding insert_by
  any_of-insert_by p key x [] = refl
  any_of-insert_by p key x (y ∷ ys) = ground (arith, any_of-insert_by p key x ys)

  pub any_of-sort_by :
      (p : A → Bool) (key : A → ℕ) (xs : List A) → any_of p (sort_by key xs) ≡ any_of p xs
  unfolding sort_by
  any_of-sort_by p key [] = refl
  any_of-sort_by p key (x ∷ xs) =
      rw (any_of-insert_by p key x (sort_by key xs), any_of-sort_by p key xs) refl

  pub any_of-select :
      (p q : A → Bool) (xs : List A) → any_of p (select q xs) ≡ any_of (λ x. q x && p x) xs
  any_of-select p q [] = refl
  any_of-select p q (x ∷ xs) = ground (arith, any_of-select p q xs)
