-- ===== src/ModelBridge/Transfer.antt =====
-- What `assert_transferable_state` of app/model_bridge.py lets through.
use gpt_project_bridge.Base.{
  ℕ, ◌+◌, String, ◌≡◌, refl, ◌⊎◌, ◌↔◌, inl, inr, Bool, true, false, not, List, Result, ok, err,
  ◌&>◌, ◌<>◌, Exn, Bool-cases, subst, require,
}
use gpt_project_bridge.Base.Text.{decimal}
use gpt_project_bridge.Json.{
  Json, null, bool, num, neg, str, arr, obj, Items, nil, cons, Fields, end, field,
}
use gpt_project_bridge.ModelBridge.Defs.{
  allowed_root_keys, forbidden_canonical, canonical_key, is_in, unexpected, check_root,
  assert_nested, assert_items, assert_fields, assert_transferable_state,
}

-- A key of a dict that is the value or lies inside it, at any depth.
mutual
  pub HasKey : String → Json → Type 0
  HasKey key (obj fs) = FieldsHave key fs
  HasKey key (arr xs) = ItemsHave key xs
  HasKey key _ = ⊥

  pub ItemsHave : String → Items → Type 0
  ItemsHave key nil = ⊥
  ItemsHave key (cons x xs) = HasKey key x ⊎ ItemsHave key xs

  pub FieldsHave : String → Fields → Type 0
  FieldsHave key end = ⊥
  FieldsHave key (field k v fs) = (k ≡ key) ⊎ (HasKey key v ⊎ FieldsHave key fs)

pub RootHas : String → Fields → Type 0
RootHas key end = ⊥
RootHas key (field k v fs) = (k ≡ key) ⊎ RootHas key fs

-- a key that may stand at the root
pub IsAllowed : String → Type 0
IsAllowed key = is_in key allowed_root_keys ≡ true

-- what the canonical form of a key may not be
abbrev pub IsPublic : String → Type 0
IsPublic key = is_in (canonical_key key) forbidden_canonical ≡ false

and-ok : (r s : Result (Unit {0})) → r &> s ≡ ok tt → (r ≡ ok tt) × (s ≡ ok tt)
and-ok (ok tt) s h = (refl, h)
and-ok (err e) s h = cc h

require-ok : (b : Bool) (e : Exn) → require (not b) e ≡ ok tt → b ≡ false
require-ok true e h = cc h
require-ok false e h = refl

-- the walk accepts nothing that holds a forbidden key
mutual
  unfolding assert_nested HasKey

  nested-IsPublic :
      (v : Json) (path : String)
      → assert_nested v path ≡ ok tt
      → (key : String) → HasKey key v
      → IsPublic key
  nested-IsPublic (obj fs) path h key m = fields-IsPublic fs path h key m
  nested-IsPublic (arr xs) path h key m = items-IsPublic xs path 0 h key m
  nested-IsPublic null path h key m = absurd m
  nested-IsPublic (bool b) path h key m = absurd m
  nested-IsPublic (num n) path h key m = absurd m
  nested-IsPublic (neg n) path h key m = absurd m
  nested-IsPublic (str s) path h key m = absurd m

  items-IsPublic :
      (xs : Items) (path : String) (i : ℕ)
      → assert_items xs path i ≡ ok tt
      → (key : String) → ItemsHave key xs
      → IsPublic key
  items-IsPublic nil path i h key m = absurd m
  items-IsPublic (cons x xs) path i h key (inl m) =
      nested-IsPublic x (path <> "[" <> decimal i <> "]") (and-ok _ _ h).0 key m
  items-IsPublic (cons x xs) path i h key (inr m) =
      items-IsPublic xs path (i + 1) (and-ok _ _ h).1 key m

  fields-IsPublic :
      (fs : Fields) (path : String)
      → assert_fields fs path ≡ ok tt
      → (key : String) → FieldsHave key fs
      → IsPublic key
  fields-IsPublic end path h key m = absurd m
  fields-IsPublic (field k v fs) path h key (inl m) =
      subst IsPublic m (require-ok _ _ (and-ok _ _ h).0)
  fields-IsPublic (field k v fs) path h key (inr (inl m)) =
      nested-IsPublic v (path <> "." <> k) (and-ok _ _ (and-ok _ _ h).1).0 key m
  fields-IsPublic (field k v fs) path h key (inr (inr m)) =
      fields-IsPublic fs path (and-ok _ _ (and-ok _ _ h).1).1 key m

-- and what holds none of them is accepted
mutual
  unfolding assert_nested HasKey

  nested-passes :
      (v : Json) (path : String)
      → ((key : String) → HasKey key v → IsPublic key)
      → assert_nested v path ≡ ok tt
  nested-passes (obj fs) path h = fields-pass fs path h
  nested-passes (arr xs) path h = items-pass xs path 0 h
  nested-passes null path h = refl
  nested-passes (bool b) path h = refl
  nested-passes (num n) path h = refl
  nested-passes (neg n) path h = refl
  nested-passes (str s) path h = refl

  items-pass :
      (xs : Items) (path : String) (i : ℕ)
      → ((key : String) → ItemsHave key xs → IsPublic key)
      → assert_items xs path i ≡ ok tt
  items-pass nil path i h = refl
  items-pass (cons x xs) path i h =
      rw (nested-passes x (path <> "[" <> decimal i <> "]") (λ key m. h key (inl m)))
        (items-pass xs path (i + 1) (λ key m. h key (inr m)))

  fields-pass :
      (fs : Fields) (path : String)
      → ((key : String) → FieldsHave key fs → IsPublic key)
      → assert_fields fs path ≡ ok tt
  fields-pass end path h = refl
  fields-pass (field k v fs) path h =
      rw (h k (inl refl), nested-passes v (path <> "." <> k) (λ key m. h key (inr (inl m))))
        (fields-pass fs path (λ key m. h key (inr (inr m))))

check_root-ok : (ks : List String) → check_root ks ≡ ok tt → ks ≡ List.[]
unfolding check_root
check_root-ok List.[] h = refl
check_root-ok (List.◌∷◌ k ks) h = cc h

unexpected-IsAllowed :
    (fs : Fields) → unexpected fs ≡ List.[] → (key : String) → RootHas key fs → IsAllowed key
unfolding unexpected RootHas IsAllowed
unexpected-IsAllowed end h key m = absurd m
unexpected-IsAllowed (field k v fs) h key m = elim (Bool-cases (is_in k allowed_root_keys)) [
  | inr f ↦ cc (rw f at h)
  | inl t ↦ elim m [
    | inl same ↦ subst (λ x. is_in x allowed_root_keys ≡ true) same t
    | inr rest ↦ unexpected-IsAllowed fs (rw t at h) key rest
  ]
]

unexpected-none :
    (fs : Fields) → ((key : String) → RootHas key fs → IsAllowed key) → unexpected fs ≡ List.[]
unfolding unexpected RootHas IsAllowed
unexpected-none end h = refl
unexpected-none (field k v fs) h = rw (h k (inl refl)) (unexpected-none fs (λ key m. h key (inr m)))

-- A payload is transferable exactly if each key at its root is a declared one and no key at any
-- depth has a forbidden canonical form.
pub assert_transferable_state_iff :
    (payload : Fields)
    → (assert_transferable_state payload ≡ ok tt) ↔ (
        ((key : String) → RootHas key payload → IsAllowed key)
        × ((key : String) → FieldsHave key payload → IsPublic key))
unfolding assert_transferable_state
assert_transferable_state_iff payload = (
  (λ h.
      let (root, rest) = and-ok _ _ h in
      (
        unexpected-IsAllowed payload (check_root-ok (unexpected payload) root),
        fields-IsPublic payload "$" rest,
      )),
  (λ (root, rest). rw (unexpected-none payload root) (fields-pass payload "$" rest)),
)
