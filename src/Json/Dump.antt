-- ===== src/Json/Dump.antt =====
-- `json.dumps(value, sort_keys=True, separators=(",", ":"), ensure_ascii=False)`, which is
-- `canonical_json` (app/evidence.py), `_canonical_json` (app/storage.py) and, hashed, `stable_hash`
-- (app/core.py).
use Prim.Native.Nat.{Ordering}
use Prim.Native.Char.{Char, code}
use Prim.Native.String.{char_at, compare}
use gpt_project_bridge.Base.{
  ℕ, ◌+◌, ◌/◌, ◌%◌, String, ◌<>◌, ◌≡◌, refl, Bool, true, false, List, [], ◌∷◌, ltb, nat_eq,
  if◌then◌else◌,
}
use gpt_project_bridge.Base.Text.{decimal}
use gpt_project_bridge.Json.Data.{
  Json, null, bool, num, neg, str, arr, obj, Items, nil, cons, Fields, end, field, dict, list,
}

hex_digit : ℕ → String
hex_digit n = String.◌∷◌ (char_at "0123456789abcdef" n) ""

escape_char : Char → String
unfolding hex_digit
escape_char c =
    let n = code c in
    if nat_eq n 34
    then "\\\""
    else if nat_eq n 92
    then "\\\\"
    else if nat_eq n 8
    then "\\b"
    else if nat_eq n 9
    then "\\t"
    else if nat_eq n 10
    then "\\n"
    else if nat_eq n 12
    then "\\f"
    else if nat_eq n 13
    then "\\r"
    else if ltb n 32
    then "\\u00" <> hex_digit (n / 16) <> hex_digit (n % 16)
    else String.◌∷◌ c ""

escape : String → String
unfolding escape_char
escape String.[] = ""
escape (String.◌∷◌ c s) = escape_char c <> escape s

quote : String → String
unfolding escape
quote s = "\"" <> escape s <> "\""

join : List String → String
join [] = ""
join (s ∷ []) = s
join (s ∷ t ∷ r) = s <> "," <> join (t ∷ r)

-- the items of an object by their keys
before : String → String → Bool
before j k = elim (compare j k) [ Ordering.gt ↦ false | _ ↦ true ]

insert_key : String → String → List (String × String) → List (String × String)
unfolding before
insert_key k v [] = (k, v) ∷ []
insert_key k v ((j, w) ∷ r) =
    let rest = insert_key k v r in if before k j then (k, v) ∷ (j, w) ∷ r else (j, w) ∷ rest

sort_keys : List (String × String) → List (String × String)
unfolding insert_key
sort_keys [] = []
sort_keys ((k, v) ∷ r) = insert_key k v (sort_keys r)

write_items : List (String × String) → List String
unfolding quote
write_items [] = []
write_items ((k, v) ∷ r) = (quote k <> ":" <> v) ∷ write_items r

unfoldable mutual
  unfolding quote join sort_keys write_items decimal

  pub canonical_json : Json → String
  canonical_json null = "null"
  canonical_json (bool true) = "true"
  canonical_json (bool false) = "false"
  canonical_json (num n) = decimal n
  canonical_json (neg n) = "-" <> decimal (n + 1)
  canonical_json (str s) = quote s
  canonical_json (arr xs) = "[" <> join (dump_items xs) <> "]"
  canonical_json (obj fs) = "{" <> join (write_items (sort_keys (dump_fields fs))) <> "}"

  pub dump_items : Items → List String
  dump_items nil = []
  dump_items (cons x xs) = canonical_json x ∷ dump_items xs

  pub dump_fields : Fields → List (String × String)
  dump_fields end = []
  dump_fields (field k v fs) = (k, canonical_json v) ∷ dump_fields fs

abbrev sample : Json
sample =
    dict (("b", num 120) ∷ ("a", list (bool true ∷ null ∷ neg 0 ∷ [])) ∷ ("B", str "x\"y") ∷ [])

canonical_json-sample : canonical_json sample ≡ "{\"B\":\"x\\\"y\",\"a\":[true,null,-1],\"b\":120}"
unfolding canonical_json
canonical_json-sample = refl
