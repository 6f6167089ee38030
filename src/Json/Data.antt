-- ===== src/Json/Data.antt =====
-- JSON values, a `dict` as the list of its fields in insertion order, and Python's `==`.
use gpt_project_bridge.Base.{
  ℕ, String, Bool, true, false, ◌&&◌, Option, none, some, List, [], ◌∷◌, ◌+◌, nat_eq, ◌==◌,
  if◌then◌else◌,
}

-- `neg n` is the integer -(n + 1).
mutual
  pub data Json : Type 0 where
    null : Json
    bool : Bool → Json
    num : ℕ → Json
    neg : ℕ → Json
    str : String → Json
    arr : Items → Json
    obj : Fields → Json

  pub data Items : Type 0 where
    nil : Items
    cons : Json → Items → Items

  pub data Fields : Type 0 where
    end : Fields
    field : String → Json → Fields → Fields

-- a list and a dict literal
abbrev pub to_items : List Json → Items
to_items [] = nil
to_items (x ∷ xs) = cons x (to_items xs)

abbrev pub to_fields : List (String × Json) → Fields
to_fields [] = end
to_fields ((k, v) ∷ r) = field k v (to_fields r)

abbrev pub list : List Json → Json
list xs = arr (to_items xs)

abbrev pub dict : List (String × Json) → Json
dict r = obj (to_fields r)

abbrev pub opt_str : Option String → Json
opt_str none = null
opt_str (some s) = str s

abbrev pub opt_num : Option ℕ → Json
opt_num none = null
opt_num (some n) = num n

-- `d.get(key)`
unfoldable pub get : String → Fields → Option Json
get key end = none
get key (field k v fs) = if k == key then some v else get key fs

-- `d[key] = v`
unfoldable pub put : String → Json → Fields → Fields
put key v end = field key v end
put key v (field k w fs) = if k == key then field k v fs else field k w (put key v fs)

-- `d.get(key, default)` of a `dict` by another default than `None`
abbrev pub get_or : Json → Option Json → Json
get_or d none = d
get_or d (some v) = v

unfoldable pub field_count : Fields → ℕ
field_count end = 0
field_count (field k v fs) = field_count fs + 1

-- an integer or a truth value, which Python compares as 0 and 1
abbrev is_number : ℕ → Json → Bool
is_number n (num m) = nat_eq n m
is_number n (bool true) = nat_eq n 1
is_number n (bool false) = nat_eq n 0
is_number n _ = false

-- `a == b`; two dicts are equal if they have the same items, in whatever order
unfoldable mutual
  unfolding get field_count

  pub json_eq : Json → Json → Bool
  json_eq null null = true
  json_eq (bool true) b = is_number 1 b
  json_eq (bool false) b = is_number 0 b
  json_eq (num n) b = is_number n b
  json_eq (neg n) (neg m) = nat_eq n m
  json_eq (str s) (str t) = s == t
  json_eq (arr xs) (arr ys) = items_eq xs ys
  json_eq (obj fs) (obj gs) = nat_eq (field_count fs) (field_count gs) && fields_in fs gs
  json_eq _ _ = false

  pub items_eq : Items → Items → Bool
  items_eq nil nil = true
  items_eq (cons x xs) (cons y ys) = json_eq x y && items_eq xs ys
  items_eq _ _ = false

  -- each item of the first dict is one of the second: `all(k in d and d[k] == v …)`
  pub fields_in : Fields → Fields → Bool
  fields_in end gs = true
  fields_in (field k v fs) gs =
      (elim (get k gs) [ none ↦ false | some w ↦ json_eq v w ]) && fields_in fs gs

-- `isinstance(v, str)`
abbrev pub as_str : Option Json → Option String
as_str (some (str s)) = some s
as_str _ = none

-- `v is True`
abbrev pub is_true : Option Json → Bool
is_true (some (bool true)) = true
is_true _ = false

-- `v == text` for a text
abbrev pub is_text : String → Option Json → Bool
is_text t (some (str s)) = s == t
is_text t _ = false

-- `bool(v)` where a missing key is `None`
abbrev pub truthy : Option Json → Bool
truthy none = false
truthy (some null) = false
truthy (some (bool b)) = b
truthy (some (num n)) = if nat_eq n 0 then false else true
truthy (some (neg n)) = true
truthy (some (str s)) = if s == "" then false else true
truthy (some (arr nil)) = false
truthy (some (arr (cons x xs))) = true
truthy (some (obj end)) = false
truthy (some (obj (field k v fs))) = true
