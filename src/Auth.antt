-- ===== src/Auth.antt =====
-- app/auth.py over the local tables. `int(timestamp)`, `s.upper()` and the parsed principals of
-- MATVERSE_PRINCIPALS_JSON are inputs; an integer is `pos n`, or `minus n` for -(n + 1).
pub mod Registered
pub mod Sound
pub mod Once
use gpt_project_bridge.Base.{
  ℕ, ◌+◌, ◌-◌, ◌<>◌, String, Bool, true, false, not, ◌&&◌, ◌||◌, Option, none, some, List, [], ◌∷◌,
  Action, pure, raise, lift, or_raise, raise_if, ◌>>=◌, ◌>>◌, http_error, runtime_error, Exn, count,
  ltb, leb, any_of, ◌==◌, if◌then◌else◌,
}
use gpt_project_bridge.Base.Text.{join_with}
use gpt_project_bridge.Json.{Json, Fields, Items, str, arr, obj, nil, cons, get}
use gpt_project_bridge.Host.{Host, compare_digest}
use gpt_project_bridge.Storage.Tables.{Db}
use gpt_project_bridge.Storage.Nonces.{consume_auth_nonce}

pub record Principal : Type 0 where
  pub principal_id : String
  pub capabilities : List String

unfoldable pub allows : Principal → String → Bool
allows p capability =
    any_of (λ c. c == "*") p.capabilities || any_of (λ c. c == capability) p.capabilities

pub data Integer : Type 0 where
  pos : ℕ → Integer
  minus : ℕ → Integer

-- What `authenticate` reads of Python and of its process.
pub record Python : Type 0 where
  pub upper : String → String
  pub parse_int : String → Option Integer
  -- `os.environ.get("MATVERSE_PRINCIPALS_JSON", "")`
  pub principals_json : String

-- A request: its headers are "" where they are missing, its body is text.
pub record HttpRequest : Type 0 where
  pub principal_id : String
  pub timestamp : String
  pub nonce : String
  pub content_sha256 : String
  pub signature : String
  pub method : String
  pub path : String
  pub body : String

-- what the text of the principals is read as
unfoldable pub as_registry : Option Json → Action Db Fields
as_registry none = raise (runtime_error "MATVERSE_PRINCIPALS_JSON must be valid JSON")
as_registry (some (obj fs)) = pure fs
as_registry (some _) = raise (runtime_error "MATVERSE_PRINCIPALS_JSON must be an object")

unfoldable pub registry : Host → Python → Action Db Fields
unfolding as_registry
registry H P =
    if P.principals_json == ""
    then pure Fields.end
    else as_registry (H.json_loads P.principals_json)

unfoldable pub signing_payload :
    Python → (method path timestamp nonce content_sha256 : String) → String
unfolding join_with
signing_payload P method path timestamp nonce content_sha256 =
    join_with "\n" (P.upper method ∷ path ∷ timestamp ∷ nonce ∷ content_sha256 ∷ [])

unfoldable pub sign_request :
    Host → Python → (secret method path timestamp nonce content_sha256 : String) → String
unfolding signing_payload
sign_request H P secret method path timestamp nonce content_sha256 =
    H.hmac_sha256 secret (signing_payload P method path timestamp nonce content_sha256)

abbrev auth_window_seconds : ℕ
auth_window_seconds = 300

-- `abs(now - ts) > AUTH_WINDOW_SECONDS`
unfoldable pub outside_window : ℕ → Integer → Bool
outside_window now (pos t) = ltb (t + auth_window_seconds) now || ltb (now + auth_window_seconds) t
outside_window now (minus n) = ltb auth_window_seconds (now + (n + 1))

-- `ts + AUTH_WINDOW_SECONDS` inside the window, where it is not negative
unfoldable pub expiry : Integer → ℕ
expiry (pos t) = t + auth_window_seconds
expiry (minus n) = auth_window_seconds - (n + 1)

unfoldable pub secret_of : Fields → Option Json → Action Db (Fields × String)
secret_of fs (some (str s)) = pure (fs, s)
secret_of fs _ = raise (http_error 401 "unknown principal")

-- the fields of the principal's record and its secret
unfoldable pub principal_record : Option Json → Action Db (Fields × String)
unfolding secret_of
principal_record (some (obj fs)) = secret_of fs (get "secret" fs)
principal_record _ = raise (http_error 401 "unknown principal")

texts : Items → Option (List String)
texts nil = some []
texts (cons (str s) xs) = elim (texts xs) [ none ↦ none | some r ↦ some (s ∷ r) ]
texts (cons _ xs) = none

-- `record.get("capabilities", [])`
unfoldable pub capabilities_of : Fields → Option (List String)
unfolding texts
capabilities_of fs = elim (get "capabilities" fs) [
  | none ↦ some []
  | some v ↦ elim v [ arr xs ↦ texts xs | _ ↦ none ]
]

abbrev pub refuse_if : Bool → String → Action Db (Unit {0})
refuse_if b detail = raise_if b (http_error 401 detail)

-- `compare_digest` raises on a text that is not ASCII
abbrev pub demand_equal : String → String → String → Action Db (Unit {0})
demand_equal expected given detail =
    lift (compare_digest expected given) >>= λ same. refuse_if (not same) detail

-- the answer behind the nonce
unfoldable pub grant : HttpRequest → Fields → Bool → Action Db Principal
unfolding capabilities_of
grant q fs false = raise (http_error 409 "authentication nonce replayed")
grant q fs true =
    or_raise (capabilities_of fs) (http_error 401 "principal capability registry invalid")
    >>= λ capabilities. pure (record { principal_id = q.principal_id; capabilities = capabilities })

-- the last steps: the nonce is used up before the capabilities are read
unfoldable pub admit : ℕ → HttpRequest → Integer → Fields → Action Db Principal
unfolding consume_auth_nonce expiry grant
admit clock q ts fs = consume_auth_nonce clock q.principal_id q.nonce (expiry ts) >>= grant q fs

unfoldable pub has_headers : HttpRequest → Bool
has_headers q =
    not (q.principal_id == "")
    && (not (q.timestamp == "")
        && (not (q.nonce == "") && (not (q.content_sha256 == "") && not (q.signature == ""))))

-- the principal's record and its secret
unfoldable pub find_principal : Host → Python → HttpRequest → Action Db (Fields × String)
unfolding has_headers registry principal_record
find_principal H P q =
    refuse_if (not (has_headers q)) "missing MatVerse authentication headers"
    >> registry H P
    >>= λ known. principal_record (get q.principal_id known)

-- the checks between the timestamp and the nonce
unfoldable pub check_request :
    Host → Python → ℕ → HttpRequest → String → Integer → Action Db (Unit {0})
unfolding outside_window sign_request compare_digest
check_request H P now q secret ts =
    refuse_if (outside_window now ts) "authentication timestamp outside allowed window"
    >> refuse_if (ltb (count q.nonce) 16 || ltb 128 (count q.nonce)) "invalid authentication nonce"
    >> demand_equal (H.sha256 q.body) q.content_sha256 "content hash mismatch"
    >> demand_equal (sign_request H P secret q.method q.path q.timestamp q.nonce q.content_sha256)
        q.signature "invalid request signature"

-- the steps behind the lookup of the principal's record
unfoldable pub verify :
    Host → Python → (now clock : ℕ) → HttpRequest → Fields × String → Action Db Principal
unfolding admit check_request
verify H P now clock q found =
    or_raise (P.parse_int q.timestamp) (http_error 401 "invalid authentication timestamp") >>= λ ts.
    check_request H P now q found.1 ts >> admit clock q ts found.0

-- `now` is `int(time.time())`, `clock` the time of SQLite.
unfoldable pub authenticate : Host → Python → (now clock : ℕ) → HttpRequest → Action Db Principal
unfolding find_principal verify
authenticate H P now clock q = find_principal H P q >>= verify H P now clock q

unfoldable pub require_capability :
    Host → Python → (now clock : ℕ) → String → HttpRequest → Action Db Principal
unfolding authenticate allows
require_capability H P now clock capability q = authenticate H P now clock q >>= λ principal.
    raise_if (not (allows principal capability))
      (http_error 403 ("principal lacks capability: " <> capability))
    >> pure principal
