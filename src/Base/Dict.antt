-- ===== src/Base/Dict.antt =====
-- A dict of texts as an association list.
use Prim.Native.String.{String}
use mathlib.Core.Path.{◌≡◌, refl, ◌∙◌, subst}
use mathlib.Core.Logic.{inl, inr}
use mathlib.Core.Bool.{Bool, true, false}
use text.Mathlib.TextEquality.{eq_iff}
use mathlib.Core.Option.{Option, none, some}
use mathlib.Core.List.{List, [], ◌∷◌}
use package.gpt_project_bridge.Base.Tests.{◌==◌, if◌then◌else◌, Bool-cases}

module _ {ℓ} {V : Type ℓ} where
  -- `d.get(key)`
  abbrev pub lookup : String → List (String × V) → Option V
  lookup key [] = none
  lookup key ((k, v) ∷ d) = if k == key then some v else lookup key d

  abbrev pub keys : List (String × V) → List String
  keys [] = []
  keys ((k, v) ∷ d) = k ∷ keys d

  -- `d[key] = v`
  unfoldable pub set_item : String → V → List (String × V) → List (String × V)
  set_item key v [] = (key, v) ∷ []
  set_item key v ((k, w) ∷ d) =
      let rest = set_item key v d in if k == key then (k, v) ∷ d else (k, w) ∷ rest

  -- `d.pop(key, None)`, of a dict that has no key twice
  unfoldable pub remove_item : String → List (String × V) → List (String × V)
  remove_item key [] = []
  remove_item key ((k, w) ∷ d) =
      let rest = remove_item key d in if k == key then d else (k, w) ∷ rest

  -- a change of every value
  unfoldable pub map_items : (V → V) → List (String × V) → List (String × V)
  map_items f [] = []
  map_items f ((k, v) ∷ d) = (k, f v) ∷ map_items f d

  if_twice :
      (b : Bool) (x w y : Option V) → (if b then x else y) ≡ (if b then x else (if b then w else y))
  if_twice true x w y = refl
  if_twice false x w y = refl

  pub lookup-set_item :
      (key id : String) (v : V) (d : List (String × V))
      → lookup id (set_item key v d) ≡ (if key == id then some v else lookup id d)
  unfolding set_item
  lookup-set_item key id v [] = refl
  lookup-set_item key id v ((k, w) ∷ d) = elim (Bool-cases (k == key)) [
    | inl x ↦ rw x (rw ((eq_iff k key).0 x) (if_twice (key == id) (some v) (some w) (lookup id d)))
    | inr x ↦ elim (Bool-cases (key == id)) [
      | inl y ↦
          let other : (k == id) ≡ false = subst (λ n. (k == n) ≡ false) ((eq_iff key id).0 y) x in
          rw (x, y) (rw other (lookup-set_item key id v d ∙ rw y refl))
      | inr y ↦ rw (x, y) (rw (lookup-set_item key id v d) (rw y refl))
    ]
  ]

  pub lookup-map_items :
      (f : V → V) (id : String) (d : List (String × V))
      → lookup id (map_items f d) ≡ elim (lookup id d) [ none ↦ none | some v ↦ some (f v) ]
  unfolding map_items
  lookup-map_items f id [] = refl
  lookup-map_items f id ((k, v) ∷ d) = elim (Bool-cases (k == id)) [
    | inl x ↦ rw x refl
    | inr x ↦ rw x (lookup-map_items f id d)
  ]
