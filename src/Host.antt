-- ===== src/Host.antt =====
-- What the program takes from `hashlib`, `hmac` and `json.loads`: functions that the model does not
-- define. `stable_hash` is that of app/core.py.
use gpt_project_bridge.Base.{
  ok_inj, inl, inr, eq_iff, Bool-cases, true, String, ◌≡◌, count, Option, Bool, ◌&&◌, Result, ok,
  type_error, ◌&>◌, require, ◌==◌,
}
use gpt_project_bridge.Base.Text.Ascii.{is_ascii}
use gpt_project_bridge.Json.{Json}
use gpt_project_bridge.Json.Dump.{canonical_json}

pub record Host : Type 0 where
  -- `sha256(text.encode("utf-8")).hexdigest()`
  pub sha256 : String → String
  -- `sha256(bytes.fromhex(text)).hexdigest()`
  pub sha256_of_hex : String → String
  -- `hmac.new(secret.encode("utf-8"), text.encode("utf-8"), sha256).hexdigest()`
  pub hmac_sha256 : String → String → String
  -- `str(value)`
  pub py_str : Json → String
  -- `json.loads`; `none` stands for a `JSONDecodeError`
  pub json_loads : String → Option Json

-- A digest is 64 hexadecimal characters long.
abbrev pub HasDigestLength : Host → Type 0
HasDigestLength H = (s : String) → count (H.sha256 s) ≡ 64

unfoldable pub stable_hash : Host → Json → String
stable_hash H value = H.sha256 (canonical_json value)

-- `hmac.compare_digest` of two texts
unfoldable pub compare_digest : String → String → Result Bool
unfolding is_ascii
compare_digest a b =
    require (is_ascii a && is_ascii b)
      (type_error "comparing strings with non-ASCII characters is not supported")
    &> ok (a == b)

pub compare_digest-eq : (a b : String) → compare_digest a b ≡ ok true → a ≡ b
unfolding compare_digest
compare_digest-eq a b h = elim (Bool-cases (is_ascii a && is_ascii b)) [
  | inl x ↦ (eq_iff a b).0 (ok_inj (rw x at h))
  | inr x ↦ absurd (cc (rw x at h))
]
