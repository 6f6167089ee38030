-- ===== src/SecretPlane/Material.antt =====
-- Vaults, and the search for a secret in what a consumer returned (app/secret_plane.py). Material is a
-- list of bytes. Wiping the bytes of a buffer is left out.
use gpt_project_bridge.Base.{
  ℕ, String, Bool, true, false, ◌&&◌, ◌||◌, Option, none, some, List, [], ◌∷◌, Result, ok, err,
  value_error, not_available, other_error, Action, nat_eq, is_none, ◌==◌, if◌then◌else◌,
}
use gpt_project_bridge.Base.Dict.{lookup, set_item, remove_item}
use gpt_project_bridge.SecretPlane.Data.{StorageClass, environment, test_memory}

abbrev pub Bytes : Type 0
Bytes = List ℕ

pub record Vault : Type 1 where
  pub V : Type 0
  pub storage_class : StorageClass
  pub read : String → V → Result Bytes
  pub destroy : String → Action V (Unit {0})

abbrev pub is_empty_bytes : Bytes → Bool
is_empty_bytes [] = true
is_empty_bytes (b ∷ bs) = false

-- `EnvironmentSecretVault`, by the variables of the process and `encode`
pub present : (String → Bytes) → Option String → Result Bytes
present encode none = err (not_available "environment-backed secret is not available")
present encode (some value) =
    if value == ""
    then err (not_available "environment-backed secret is not available")
    else ok (encode value)

abbrev pub environment_vault : (String → Option String) → (String → Bytes) → Vault
environment_vault getenv encode = record {
  V = Unit {0};
  storage_class = environment;
  read = λ locator v. present encode (getenv locator);
  destroy = λ locator v. (
    err (
        other_error
          "environment-backed material cannot be cryptographically destroyed by this process"),
    v,
  );
}

-- `InMemorySecretVault`
unfoldable pub put_material : String → Bytes → Action (List (String × Bytes)) (Unit {0})
unfolding set_item
put_material locator value vault =
    if locator == ""
    then (err (value_error "locator is required"), vault)
    else if is_empty_bytes value
    then (err (value_error "secret material must be non-empty"), vault)
    else (ok tt, set_item locator value vault)

found : Option Bytes → Result Bytes
found none = err (not_available "secret locator is not available")
found (some value) = ok value

unfoldable pub read_material : String → List (String × Bytes) → Result Bytes
unfolding found
read_material locator vault = found (lookup locator vault)

unfoldable pub destroy_material : String → Action (List (String × Bytes)) (Unit {0})
unfolding remove_item
destroy_material locator vault =
    if is_none (lookup locator vault)
    then (err (not_available "secret locator is not available"), vault)
    else (ok tt, remove_item locator vault)

abbrev pub memory_vault : Vault
memory_vault = record {
  V = List (String × Bytes);
  storage_class = test_memory;
  read = read_material;
  destroy = destroy_material;
}

-- What a consumer returns, as far as the search looks into it.
mutual
  pub data Value : Type 0 where
    text : String → Value
    bytes : Bytes → Value
    mapping : Pairs → Value
    sequence : Values → Value
    other : Value

  pub data Pairs : Type 0 where
    no_pairs : Pairs
    pair : (key item : Value) → Pairs → Pairs

  pub data Values : Type 0 where
    no_values : Values
    item : Value → Values → Values

-- `needle in text`
unfoldable pub starts_text : String → String → Bool
starts_text String.[] s = true
starts_text (String.◌∷◌ c p) String.[] = false
starts_text (String.◌∷◌ c p) (String.◌∷◌ d s) =
    let rest = starts_text p s in String.◌∷◌ c "" == String.◌∷◌ d "" && rest

unfoldable pub text_has : String → String → Bool
unfolding starts_text
text_has needle String.[] = starts_text needle ""
text_has needle (String.◌∷◌ c s) = starts_text needle (String.◌∷◌ c s) || text_has needle s

unfoldable pub starts_bytes : Bytes → Bytes → Bool
starts_bytes [] s = true
starts_bytes (c ∷ p) [] = false
starts_bytes (c ∷ p) (d ∷ s) = nat_eq c d && starts_bytes p s

unfoldable pub bytes_have : Bytes → Bytes → Bool
unfolding starts_bytes
bytes_have needle [] = starts_bytes needle []
bytes_have needle (c ∷ s) = starts_bytes needle (c ∷ s) || bytes_have needle s

unfoldable pub decoded_in : Option String → String → Bool
unfolding text_has
decoded_in none s = false
decoded_in (some needle) s = text_has needle s

-- `_contains_secret`; `decode` is `secret.decode("utf-8")`, where it does not fail. A secret that is
-- empty is contained nowhere.
unfoldable mutual
  unfolding decoded_in bytes_have

  pub contains : (Bytes → Option String) → Bytes → Value → Bool
  contains decode secret (text s) = decoded_in (decode secret) s
  contains decode secret (bytes b) = bytes_have secret b
  contains decode secret (mapping ps) = pairs_contain decode secret ps
  contains decode secret (sequence vs) = values_contain decode secret vs
  contains decode secret other = false

  pub pairs_contain : (Bytes → Option String) → Bytes → Pairs → Bool
  pairs_contain decode secret no_pairs = false
  pairs_contain decode secret (pair k v ps) =
      (contains decode secret k || contains decode secret v) || pairs_contain decode secret ps

  pub values_contain : (Bytes → Option String) → Bytes → Values → Bool
  values_contain decode secret no_values = false
  values_contain decode secret (item v vs) =
      contains decode secret v || values_contain decode secret vs

unfoldable pub contains_secret : (Bytes → Option String) → Bytes → Value → Bool
unfolding contains
contains_secret decode [] v = false
contains_secret decode (b ∷ bs) v = contains decode (b ∷ bs) v
