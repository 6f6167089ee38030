-- ===== src/Auth/Sound.antt =====
-- What `authenticate` of app/auth.py has checked when it returns a principal, and that a request is not
-- accepted twice.
use gpt_project_bridge.Base.{
  ok_inj, ℕ, ◌≤◌, String, count, ◌≡◌, refl, sym, subst, ap, ◌∙◌, Bool, true, false, not, some,
  Result, ok, pure, lift, or_raise, ◌>>◌, http_error, ltb, ◌||◌, arith,
}
use gpt_project_bridge.Base.Inversion.{bind-ok, or_raise-ok, raise_if-ok}
use gpt_project_bridge.Json.{Fields}
use gpt_project_bridge.Host.{Host, compare_digest, compare_digest-eq}
use gpt_project_bridge.Storage.Tables.{Db}
use gpt_project_bridge.Storage.Nonces.{consume_auth_nonce}
use gpt_project_bridge.Auth.Registered.{IsRegistered, find_principal-ok}
use gpt_project_bridge.Auth.{
  Principal, Integer, Python, HttpRequest, sign_request, outside_window, expiry, capabilities_of,
  grant, refuse_if, demand_equal, admit, find_principal, check_request, verify, authenticate,
}

-- What is checked behind the lookup of the principal's secret; `s` is the store before the nonce is used up.
pub record IsVerified (H : Host) (P : Python) (now clock : ℕ) (q : HttpRequest) (secret : String)
    (s t : Db) : Type 0 where
  pub ts : Integer
  pub parsed : P.parse_int q.timestamp ≡ some ts
  pub in_window : outside_window now ts ≡ false
  pub long_enough : 16 ≤ count q.nonce
  pub short_enough : count q.nonce ≤ 128
  pub content : H.sha256 q.body ≡ q.content_sha256
  pub signed :
      sign_request H P secret q.method q.path q.timestamp q.nonce q.content_sha256 ≡ q.signature
  pub fresh : consume_auth_nonce clock q.principal_id q.nonce (expiry ts) s ≡ (ok true, t)

pass-ok :
    (b : Bool) {s t : Db} {u : Unit {0}} (detail : String)
    → refuse_if (not b) detail s ≡ (ok u, t)
    → (b ≡ true) × (t ≡ s)
pass-ok true detail e = ground arith
pass-ok false detail e = ground arith

demand_equal-ok :
    (expected given detail : String) (s : Db) {u : Unit {0}} {t : Db}
    → demand_equal expected given detail s ≡ (ok u, t)
    → (expected ≡ given) × (t ≡ s)
demand_equal-ok expected given detail s e =
    let (same, s1, e1, k1) =
      bind-ok (lift (compare_digest expected given)) (λ same. refuse_if (not same) detail) s e in
    let (yes_same, back) = pass-ok same detail k1 in
    (
      compare_digest-eq expected given (ap (λ r. r.0) e1 ∙ ap ok yes_same),
      back ∙ sym (ap (λ r. r.1) e1),
    )

grant-ok :
    (q : HttpRequest) (fs : Fields) (fresh : Bool) (s : Db) {p : Principal} {t : Db}
    → grant q fs fresh s ≡ (ok p, t)
    → (fresh ≡ true) × (p.principal_id ≡ q.principal_id) × (t ≡ s)
unfolding grant
grant-ok q fs false s e = cc (ap (λ r. r.0) e)
grant-ok q fs true s {p} {t} e =
    let (caps, s1, e1, k1) =
      bind-ok
        (or_raise (capabilities_of fs) (http_error 401 "principal capability registry invalid"))
        (λ capabilities.
          pure (record { principal_id = q.principal_id; capabilities = capabilities }))
        s e in
    let (_, back) =
      or_raise-ok (capabilities_of fs) (http_error 401 "principal capability registry invalid") s
        e1 in
    (
      refl,
      ap (λ (x : Principal). x.principal_id)
          (ok_inj (sym (ap (λ (r : Result Principal × Db). r.0) k1))),
      sym (ap (λ (r : Result Principal × Db). r.1) k1) ∙ back,
    )

admit-ok :
    (clock : ℕ) (q : HttpRequest) (ts : Integer) (fs : Fields) (s : Db) {p : Principal} {t : Db}
    → admit clock q ts fs s ≡ (ok p, t)
    → (consume_auth_nonce clock q.principal_id q.nonce (expiry ts) s ≡ (ok true, t))
      × (p.principal_id ≡ q.principal_id)
unfolding admit
admit-ok clock q ts fs s {p} {t} e =
    let (fresh, s1, e1, k1) =
      bind-ok (consume_auth_nonce clock q.principal_id q.nonce (expiry ts)) (grant q fs) s e in
    let (f, id, back) = grant-ok q fs fresh s1 k1 in (e1 ∙ (λ i. (ok (f i), sym back i)), id)

-- The checks of a request leave the store as it is.
record IsChecked (H : Host) (P : Python) (now : ℕ) (q : HttpRequest) (secret : String)
    (ts : Integer) : Type 0 where
  in_window : outside_window now ts ≡ false
  nonce : (ltb (count q.nonce) 16 || ltb 128 (count q.nonce)) ≡ false
  content : H.sha256 q.body ≡ q.content_sha256
  signed :
      sign_request H P secret q.method q.path q.timestamp q.nonce q.content_sha256 ≡ q.signature

check_request-ok :
    (H : Host) (P : Python) (now : ℕ) (q : HttpRequest) (secret : String) (ts : Integer) (s : Db)
    {u : Unit {0}} {t : Db}
    → check_request H P now q secret ts s ≡ (ok u, t)
    → IsChecked H P now q secret ts × (t ≡ s)
unfolding check_request
check_request-ok H P now q secret ts s e =
    let window =
      refuse_if (outside_window now ts) "authentication timestamp outside allowed window" in
    let nonce =
      refuse_if (ltb (count q.nonce) 16 || ltb 128 (count q.nonce))
        "invalid authentication nonce" in
    let content = demand_equal (H.sha256 q.body) q.content_sha256 "content hash mismatch" in
    let expected = sign_request H P secret q.method q.path q.timestamp q.nonce q.content_sha256 in
    let signature = demand_equal expected q.signature "invalid request signature" in
    let (_, s3, e3, k4) = bind-ok (window >> nonce >> content) (λ _. signature) s e in
    let (_, s2, e2, k3) = bind-ok (window >> nonce) (λ _. content) s e3 in
    let (_, s1, e1, k2) = bind-ok window (λ _. nonce) s e2 in
    let (w, b1) = raise_if-ok (outside_window now ts) _ s e1 in
    let (n, b2) = raise_if-ok (ltb (count q.nonce) 16 || ltb 128 (count q.nonce)) _ s1 k2 in
    let (c, b3) = demand_equal-ok _ _ "content hash mismatch" s2 k3 in
    let (g, b4) = demand_equal-ok _ _ "invalid request signature" s3 k4 in
    (record { in_window = w; nonce = n; content = c; signed = g }, b4 ∙ b3 ∙ b2 ∙ b1)

verify-ok :
    (H : Host) (P : Python) (now clock : ℕ) (q : HttpRequest) (found : Fields × String) (s : Db)
    {p : Principal} {t : Db}
    → verify H P now clock q found s ≡ (ok p, t)
    → IsVerified H P now clock q found.1 s t × (p.principal_id ≡ q.principal_id)
unfolding verify
verify-ok H P now clock q found s {t = t} e =
    let parse =
      or_raise (P.parse_int q.timestamp) (http_error 401 "invalid authentication timestamp") in
    let (ts, s1, e1, k1) =
      bind-ok parse (λ ts. check_request H P now q found.1 ts >> admit clock q ts found.0) s e in
    let (parsed, b1) = or_raise-ok (P.parse_int q.timestamp) _ s e1 in
    let (_, s2, e2, k2) =
      bind-ok (check_request H P now q found.1 ts) (λ _. admit clock q ts found.0) s1 k1 in
    let (c, b2) = check_request-ok H P now q found.1 ts s1 e2 in
    let (fresh, id) = admit-ok clock q ts found.0 s2 k2 in
    (
      record {
        ts = ts;
        parsed = parsed;
        in_window = c.in_window;
        long_enough = ground (arith, c.nonce);
        short_enough = ground (arith, c.nonce);
        content = c.content;
        signed = c.signed;
        fresh =
            subst
              (λ x. consume_auth_nonce clock q.principal_id q.nonce (expiry ts) x ≡ (ok true, t))
              (b2 ∙ b1) fresh;
      },
      id,
    )

-- A request that `authenticate` accepts names a registered principal, has a timestamp inside the
-- window, a nonce of 16 to 128 characters, the digest of its body and the signature under the
-- principal's registered secret, and used its nonce up, which was fresh; the answer is that principal.
pub authenticate-IsVerified :
    (H : Host) (P : Python) (now clock : ℕ) (q : HttpRequest) (s : Db) {p : Principal} {t : Db}
    → authenticate H P now clock q s ≡ (ok p, t)
    → (secret : String) × IsRegistered H P q.principal_id secret
      × IsVerified H P now clock q secret s t
      × (p.principal_id ≡ q.principal_id)
unfolding authenticate
authenticate-IsVerified H P now clock q s {t = t} e =
    let (found, s1, e1, k1) = bind-ok (find_principal H P q) (verify H P now clock q) s e in
    let (known, back) = find_principal-ok H P q s e1 in
    let (v, id) = verify-ok H P now clock q found s1 k1 in
    (found.1, known, subst (λ x. IsVerified H P now clock q found.1 x t) back v, id)
