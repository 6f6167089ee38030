-- ===== src/Tests/Access.antt =====
-- Requests and relations at concrete inputs.
use gpt_project_bridge.Base.{
  arith, String, ◌≡◌, ◌≢◌, refl, ◌↔◌, true, none, some, List, [], ◌∷◌, ok,
}
use gpt_project_bridge.Json.{get, Fields, str, obj, list, dict, to_fields}
use gpt_project_bridge.Host.{Host}
use gpt_project_bridge.Storage.Tables.{Db, empty}
use gpt_project_bridge.Storage.Nonces.Once.{Use, consume_all}
use gpt_project_bridge.Auth.{Principal, pos, Python, HttpRequest, authenticate}
use gpt_project_bridge.Auth.Registered.{IsRegistered}
use gpt_project_bridge.Auth.Sound.{IsVerified, authenticate-IsVerified}
use gpt_project_bridge.Auth.Once.{authenticate-once}
use gpt_project_bridge.Federation.Relation.{
  active, Relation, Request, RelationDecision, hmac_shared_secret_scheme,
}
use gpt_project_bridge.Federation.Gate.{usable, evaluate, sign_relation}
use gpt_project_bridge.Federation.Gate.Admitted.{InScope, IsWitnessed, evaluate_iff}
use gpt_project_bridge.Federation.Gate.Signed.{sign_relation-evaluate, signed_by}
use gpt_project_bridge.Tests.Ledger.{digest}

abbrev principals : Fields
principals = to_fields (
    ("gpt", dict (("secret", str "s3cret") ∷ ("capabilities", list (str "ledger:write" ∷ [])) ∷ []))
    ∷ [])

-- a host that reads one registry, and whose digests are one text
abbrev access_host : Host
access_host = record {
  sha256 = λ s. digest;
  sha256_of_hex = λ s. digest;
  hmac_sha256 = λ k s. digest;
  py_str = λ v. "value";
  json_loads = λ s. some (obj principals);
}

abbrev python : Python
python = record { upper = λ s. s; parse_int = λ s. some (pos 1000); principals_json = "{...}" }

abbrev signed_request : HttpRequest
signed_request = record {
  principal_id = "gpt";
  timestamp = "1000";
  nonce = "0123456789abcdef";
  content_sha256 = digest;
  signature = digest;
  method = "POST";
  path = "/v1/ledger";
  body = "{}";
}

abbrev gpt : Principal
gpt = record { principal_id = "gpt"; capabilities = "ledger:write" ∷ [] }

abbrev used : Db
used = (authenticate access_host python 1010 1010 signed_request empty).1

authenticate-gpt : authenticate access_host python 1010 1010 signed_request empty ≡ (ok gpt, used)
unfolding authenticate get
authenticate-gpt = refl

authenticate-IsVerified_example :
    (secret : String) × IsRegistered access_host python signed_request.principal_id secret
    × IsVerified access_host python 1010 1010 signed_request secret empty used
    × (gpt.principal_id ≡ signed_request.principal_id)
authenticate-IsVerified_example =
    authenticate-IsVerified access_host python 1010 1010 signed_request empty {p = gpt} {t = used}
      authenticate-gpt

abbrev other_use : Use
other_use = record {
  clock = 1050;
  principal_id = "gemini";
  nonce = "0123456789abcdef";
  expires_at = 1300;
}

authenticate-once_example :
    authenticate access_host python 1100 1100 signed_request (consume_all (other_use ∷ []) used)
    ≢ (ok gpt, used)
authenticate-once_example =
    authenticate-once access_host python 1010 1010 signed_request empty {p = gpt} {t = used}
      authenticate-gpt (other_use ∷ []) 1100 1100 signed_request (omega arith, tt) (omega arith)
      refl refl refl gpt used

abbrev relation : Relation
relation = record {
  relation_id = "r-1";
  source_domain = "alpha";
  target_domain = "beta";
  source_authority = "a-council";
  target_authority = "b-council";
  contract_hash = digest;
  capabilities = "transfer" ∷ [];
  valid_from = 10;
  valid_until = 20;
  status = active;
  evidence_policy = "receipt_required";
  witness_scheme = hmac_shared_secret_scheme;
  witness = none;
}

abbrev request : Request
request = record {
  source_domain = "alpha";
  target_domain = "beta";
  contract_hash = digest;
  capability = "transfer";
}

abbrev secrets : List (String × String)
secrets = ("a-council", "one") ∷ ("b-council", "two") ∷ []

evaluate_iff_example :
    ((d : RelationDecision) × (evaluate access_host secrets 15 relation request ≡ ok d)
      × (d.admissible ≡ true))
    ↔ (InScope 15 relation request
        × IsWitnessed access_host (usable (some "one")) (usable (some "two")) relation)
evaluate_iff_example = evaluate_iff access_host secrets 15 relation request

relation-InScope : InScope 15 relation request
relation-InScope = record {
  status = refl;
  source = refl;
  target = refl;
  contract = refl;
  capability = refl;
  started = omega arith;
  not_over = omega arith;
  scheme = refl;
}

abbrev signed : Relation
signed = signed_by access_host "one" "two" relation

sign_relation-signed : sign_relation access_host "one" "two" relation ≡ ok signed
unfolding sign_relation
sign_relation-signed = refl

sign_relation-evaluate_example :
    (d : RelationDecision) × (evaluate access_host secrets 15 signed request ≡ ok d)
    × (d.admissible ≡ true)
sign_relation-evaluate_example =
    sign_relation-evaluate access_host "one" "two" relation {signed = signed} secrets 15 request
      sign_relation-signed refl refl relation-InScope
