-- ===== src/Auth/Registered.antt =====
-- The lookup of a principal in app/auth.py.
use gpt_project_bridge.Base.{
  ok_inj, String, ◌≡◌, sym, ap, subst, ◌∙◌, not, Option, some, none, ok, ◌==◌, ◌>>◌, arith,
  Bool-cases, inl, inr,
}
use gpt_project_bridge.Base.Inversion.{bind-ok, raise_if-ok}
use gpt_project_bridge.Json.{Json, Fields, null, bool, num, neg, str, arr, obj, get}
use gpt_project_bridge.Host.{Host}
use gpt_project_bridge.Storage.Tables.{Db}
use gpt_project_bridge.Auth.{
  Python, HttpRequest, secret_of, as_registry, registry, principal_record, has_headers, refuse_if,
  find_principal,
}

-- The parsed principals have an object under the name, with the text `secret` as its secret.
pub record IsRegistered (H : Host) (P : Python) (principal_id secret : String) : Type 0 where
  pub known : Fields
  pub fields : Fields
  pub parsed : H.json_loads P.principals_json ≡ some (obj known)
  pub named : get principal_id known ≡ some (obj fields)
  pub has_secret : get "secret" fields ≡ some (str secret)

secret_of-ok :
    (fs : Fields) (o : Option Json) (s : Db) {found : Fields × String} {t : Db}
    → secret_of fs o s ≡ (ok found, t)
    → (found.0 ≡ fs) × (o ≡ some (str found.1)) × (t ≡ s)
unfolding secret_of
secret_of-ok fs none s e = cc (ap (λ r. r.0) e)
secret_of-ok fs (some null) s e = cc (ap (λ r. r.0) e)
secret_of-ok fs (some (bool b)) s e = cc (ap (λ r. r.0) e)
secret_of-ok fs (some (num n)) s e = cc (ap (λ r. r.0) e)
secret_of-ok fs (some (neg n)) s e = cc (ap (λ r. r.0) e)
secret_of-ok fs (some (arr xs)) s e = cc (ap (λ r. r.0) e)
secret_of-ok fs (some (obj os)) s e = cc (ap (λ r. r.0) e)
secret_of-ok fs (some (str x)) s e = ground arith

principal_record-ok :
    (o : Option Json) (s : Db) {found : Fields × String} {t : Db}
    → principal_record o s ≡ (ok found, t)
    → (o ≡ some (obj found.0)) × (get "secret" found.0 ≡ some (str found.1)) × (t ≡ s)
unfolding principal_record
principal_record-ok none s e = cc (ap (λ r. r.0) e)
principal_record-ok (some null) s e = cc (ap (λ r. r.0) e)
principal_record-ok (some (bool b)) s e = cc (ap (λ r. r.0) e)
principal_record-ok (some (num n)) s e = cc (ap (λ r. r.0) e)
principal_record-ok (some (neg n)) s e = cc (ap (λ r. r.0) e)
principal_record-ok (some (arr xs)) s e = cc (ap (λ r. r.0) e)
principal_record-ok (some (str x)) s e = cc (ap (λ r. r.0) e)
principal_record-ok (some (obj fs)) s e =
    let (same, secret, back) = secret_of-ok fs (get "secret" fs) s e in
    (ap (λ x. some (obj x)) (sym same), ap (get "secret") same ∙ secret, back)

as_registry-ok :
    (o : Option Json) (s : Db) {known : Fields} {t : Db}
    → as_registry o s ≡ (ok known, t)
    → (o ≡ some (obj known)) × (t ≡ s)
unfolding as_registry
as_registry-ok none s e = cc (ap (λ r. r.0) e)
as_registry-ok (some null) s e = cc (ap (λ r. r.0) e)
as_registry-ok (some (bool b)) s e = cc (ap (λ r. r.0) e)
as_registry-ok (some (num n)) s e = cc (ap (λ r. r.0) e)
as_registry-ok (some (neg n)) s e = cc (ap (λ r. r.0) e)
as_registry-ok (some (arr xs)) s e = cc (ap (λ r. r.0) e)
as_registry-ok (some (str x)) s e = cc (ap (λ r. r.0) e)
as_registry-ok (some (obj fs)) s e = ground arith

-- an empty registry names nobody
registry-ok :
    (H : Host) (P : Python) (s : Db) {known : Fields} {t : Db} (name : String) {v : Json}
    → registry H P s ≡ (ok known, t)
    → get name known ≡ some v
    → (H.json_loads P.principals_json ≡ some (obj known)) × (t ≡ s)
unfolding registry get
registry-ok H P s {known} {t} name {v} e g = elim (Bool-cases (P.principals_json == "")) [
  | inl x ↦
      absurd (cc (subst (λ f. get name f ≡ some v) (sym (ok_inj (ap (λ r. r.0) (rw x at e)))) g))
  | inr x ↦ as_registry-ok (H.json_loads P.principals_json) s (rw x at e)
]

pub find_principal-ok :
    (H : Host) (P : Python) (q : HttpRequest) (s : Db) {found : Fields × String} {t : Db}
    → find_principal H P q s ≡ (ok found, t)
    → IsRegistered H P q.principal_id found.1 × (t ≡ s)
unfolding find_principal
find_principal-ok H P q s {found} {t} e =
    let headers = refuse_if (not (has_headers q)) "missing MatVerse authentication headers" in
    let (known, s2, e2, k2) =
      bind-ok (headers >> registry H P) (λ known. principal_record (get q.principal_id known)) s
        e in
    let (_, s1, e1, k1) = bind-ok headers (λ _. registry H P) s e2 in
    let (_, b1) = raise_if-ok (not (has_headers q)) _ s e1 in
    let (named, secret, b3) = principal_record-ok (get q.principal_id known) s2 k2 in
    let (parsed, b2) = registry-ok H P s1 q.principal_id k1 named in
    (
      record {
        known = known;
        fields = found.0;
        parsed = parsed;
        named = named;
        has_secret = secret;
      },
      b3 ∙ b2 ∙ b1,
    )
