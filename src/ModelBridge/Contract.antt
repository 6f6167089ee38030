-- ===== src/ModelBridge/Contract.antt =====
-- `contract_hash` of app/model_bridge.py. The loop over the set `required` runs here in the order in
-- which the set is written; Python's order is arbitrary, and changes only which field an error names.
use Prim.Native.Char.{Char, code}
use Prim.Native.String.{String, [], ◌∷◌}
use gpt_project_bridge.Base.{
  ◌<>◌, ◌≡◌, refl, Bool, true, false, not, ◌&&◌, ◌||◌, Option, none, some, List, Result, ok, err,
  value_error, ◌&>◌, require, select, leb, nat_eq, count, if◌then◌else◌,
}
use gpt_project_bridge.Base.Dict.{lookup, keys}
use gpt_project_bridge.Base.Text.{strip, join_with, sort_texts}
use gpt_project_bridge.Json.{Json, str, Fields, end, field}
use gpt_project_bridge.Host.{Host, stable_hash}
use gpt_project_bridge.ModelBridge.Defs.{protocol_version, is_in}

hex_any : Char → Bool
hex_any c =
    (leb 48 (code c) && leb (code c) 57)
    || (leb 97 (code c) && leb (code c) 102)
    || (leb 65 (code c) && leb (code c) 70)

-- digits with single underscores between them: whether the text may end here, and whether an
-- underscore may come next
run : Bool → Bool → String → Bool
unfolding hex_any
run may_end may_join [] = may_end
run may_end may_join (c ∷ s) =
    let digit = run true true s in
    let joined = run false false s in
    if hex_any c then digit else if nat_eq (code c) 95 && may_join then joined else false

after_sign : String → Bool
unfolding run
after_sign (c ∷ d ∷ s) =
    if nat_eq (code c) 48 && (nat_eq (code d) 120 || nat_eq (code d) 88)
    then run false true s
    else run false false (c ∷ d ∷ s)
after_sign s = run false false s

unsigned : String → Bool
unfolding after_sign
unsigned [] = false
unsigned (c ∷ s) =
    if nat_eq (code c) 43 || nat_eq (code c) 45 then after_sign s else after_sign (c ∷ s)

-- whether `int(value, 16)` returns
unfoldable pub is_int16 : String → Bool
unfolding unsigned strip
is_int16 value = unsigned (strip value)

abbrev pub required : List String
required = List.◌∷◌ "ontology_hash" (
    List.◌∷◌ "policy_hash"
      (List.◌∷◌ "task_hash" (List.◌∷◌ "rubric_hash" (List.◌∷◌ "memory_policy_hash" List.[]))))

none_of : String → List String → Result (Unit {0})
none_of message List.[] = ok tt
none_of message (List.◌∷◌ k ks) =
    err (value_error (message <> join_with ", " (sort_texts (List.◌∷◌ k ks))))

check_value : String → Option String → Result (Unit {0})
unfolding is_int16
check_value key none = err (value_error (key <> " must be a 64-character SHA-256 hex digest"))
check_value key (some value) =
    require (nat_eq (count value) 64)
      (value_error (key <> " must be a 64-character SHA-256 hex digest"))
    &> require (is_int16 value) (value_error (key <> " must be a SHA-256 hex digest"))

check_values : List (String × String) → List String → Result (Unit {0})
unfolding check_value
check_values contract List.[] = ok tt
check_values contract (List.◌∷◌ key ks) =
    check_value key (lookup key contract) &> check_values contract ks

contract_fields : List (String × String) → Fields
contract_fields List.[] = end
contract_fields (List.◌∷◌ (k, v) r) = field k (str v) (contract_fields r)

unfoldable pub contract_hash : Host → List (String × String) → Result String
unfolding none_of check_values contract_fields
contract_hash H contract =
    none_of "missing frozen contract fields: "
      (select (λ k. not (is_in k (keys contract))) required)
    &> none_of "unexpected frozen contract fields: "
        (select (λ k. not (is_in k required)) (keys contract))
    &> check_values contract required
    &> ok (
        stable_hash H
          (Json.obj (field "protocol_version" (str protocol_version) (contract_fields contract))))

-- A prefix and separators are let through, though the text is no digest.
is_int16_prefixed : is_int16 "0x_Ab_9" ≡ true
unfolding is_int16
is_int16_prefixed = refl

is_int16_refused : is_int16 "12__3" ≡ false
unfolding is_int16
is_int16_refused = refl
