-- ===== src/ModelBridge/Defs.antt =====
-- Which state app/model_bridge.py lets pass between models, and the digest of a handoff.
use Prim.Native.Char.{Char, code}
use Prim.Native.String.{String, [], ◌∷◌}
use gpt_project_bridge.Base.{
  ℕ, ◌+◌, ◌<>◌, Bool, not, ◌&&◌, ◌||◌, Option, List, Result, ok, err, value_error, ◌&>◌, require,
  any_of, leb, ◌==◌, if◌then◌else◌,
}
use gpt_project_bridge.Base.Text.{lower, strip, decimal, join_with, sort_texts}
use gpt_project_bridge.Json.{
  Json, num, str, arr, obj, Items, nil, cons, Fields, end, field, opt_str,
}
use gpt_project_bridge.Host.{Host, stable_hash}

abbrev pub protocol_version : String
protocol_version = "matverse.model-bridge.v1.1"

abbrev texts : String → String → List String → List String
texts a b r = List.◌∷◌ a (List.◌∷◌ b r)

abbrev pub allowed_root_keys : List String
allowed_root_keys = texts "kind" "public_summary" (
    texts "decision" "claims" (
      texts "safety" "state"
        (texts "evidence" "metadata" (texts "ontology_state" "policy_state" List.[]))))

abbrev pub forbidden_canonical : List String
forbidden_canonical = List.◌∷◌ "chainofthought" (
    texts "cot" "reasoningtrace" (
      texts "hiddenreasoning" "hiddenstate" (
        texts "privatememory" "internalmemory" (
          texts "systemprompt" "developerprompt" (
            texts "credentials" "apikey"
              (texts "secretkey" "accesstoken" (texts "refreshtoken" "password" List.[])))))))

abbrev pub is_in : String → List String → Bool
is_in s l = any_of (λ t. t == s) l

is_lower_or_digit : Char → Bool
is_lower_or_digit c = (leb 97 (code c) && leb (code c) 122) || (leb 48 (code c) && leb (code c) 57)

is_upper : Char → Bool
is_upper c = leb 65 (code c) && leb (code c) 90

-- `re.sub(r"([a-z0-9])([A-Z])", r"\1_\2", text)`
snake : String → String
unfolding is_lower_or_digit is_upper
snake [] = []
snake (c ∷ []) = c ∷ []
snake (c ∷ d ∷ s) =
    let rest = snake (d ∷ s) in
    if is_lower_or_digit c && is_upper d then c ∷ ("_" <> rest) else c ∷ rest

-- `re.sub(r"[^a-z0-9]", "", text)`
keep_plain : String → String
unfolding is_lower_or_digit
keep_plain [] = []
keep_plain (c ∷ s) = let rest = keep_plain s in if is_lower_or_digit c then c ∷ rest else rest

unfoldable pub canonical_key : String → String
unfolding snake keep_plain strip lower
canonical_key key = keep_plain (lower (snake (strip key)))

-- the keys of a dict that are not allowed at the root
unfoldable pub unexpected : Fields → List String
unexpected end = List.[]
unexpected (field k v fs) =
    let rest = unexpected fs in if is_in k allowed_root_keys then rest else List.◌∷◌ k rest

unfoldable pub check_root : List String → Result (Unit {0})
check_root List.[] = ok tt
check_root (List.◌∷◌ k ks) = err (
    value_error
      ("undeclared transferable root fields: " <> join_with ", " (sort_texts (List.◌∷◌ k ks))))

-- The walk below the root.
unfoldable mutual
  unfolding canonical_key decimal

  pub assert_nested : Json → String → Result (Unit {0})
  assert_nested (obj fs) path = assert_fields fs path
  assert_nested (arr xs) path = assert_items xs path 0
  assert_nested _ path = ok tt

  pub assert_items : Items → String → ℕ → Result (Unit {0})
  assert_items nil path i = ok tt
  assert_items (cons x xs) path i =
      assert_nested x (path <> "[" <> decimal i <> "]") &> assert_items xs path (i + 1)

  pub assert_fields : Fields → String → Result (Unit {0})
  assert_fields end path = ok tt
  assert_fields (field k v fs) path =
      require (not (is_in (canonical_key k) forbidden_canonical))
        (value_error ("forbidden hidden/private field at " <> path <> "." <> k))
      &> (assert_nested v (path <> "." <> k) &> assert_fields fs path)

-- `assert_transferable_state` of a dict, at the root
unfoldable pub assert_transferable_state : Fields → Result (Unit {0})
unfolding unexpected check_root assert_nested
assert_transferable_state value = check_root (unexpected value) &> assert_fields value "$"

-- The arguments of `build_handoff_digest`.
pub record Handoff : Type 0 where
  pub session_id : String
  pub sequence : ℕ
  pub from_participant : String
  pub to_participant : String
  pub parent_handoff_id : Option String
  pub payload : Fields
  pub frozen_contract_hash : String

unfoldable pub handoff_document : Handoff → Json
handoff_document h = obj (
    field "protocol_version" (str protocol_version) (
      field "session_id" (str h.session_id) (
        field "sequence" (num h.sequence) (
          field "from_participant" (str h.from_participant) (
            field "to_participant" (str h.to_participant) (
              field "parent_handoff_id" (opt_str h.parent_handoff_id) (
                field "payload" (obj h.payload)
                  (field "frozen_contract_hash" (str h.frozen_contract_hash) end))))))))

unfoldable pub build_handoff_digest : Host → Handoff → Result String
unfolding handoff_document
build_handoff_digest H h =
    assert_transferable_state h.payload &> ok (stable_hash H (handoff_document h))
