-- ===== src/Storage/Artifacts/Registry.antt =====
-- When `validate_contract_registry` of app/storage.py accepts a contract.
use gpt_project_bridge.Base.{
  String, ◌≡◌, refl, ap, ◌↔◌, inl, inr, Option, none, some, List, [], ◌∷◌, ◌++◌, Result, ok, err,
  Option-cases, arith, Bool-cases, ◌==◌, eq_iff, All,
}
use gpt_project_bridge.Base.Dict.{lookup}
use gpt_project_bridge.Storage.Tables.{Db, ArtifactRow}
use gpt_project_bridge.Storage.Artifacts.{
  find_artifact, mapping, Complaints, complain, check_fields, judge, judged,
  validate_contract_registry,
}

-- the field is there, and names a registered artifact of the right kind
unfoldable pub IsBacked : List (String × String) → Db → String × String → Type 0
IsBacked contract db (f, kind) =
    (artifact_hash : String) × (artifact : ArtifactRow) × (lookup f contract ≡ some artifact_hash)
    × (find_artifact artifact_hash db ≡ some artifact)
    × (artifact.kind ≡ kind)

snoc-nonempty : (xs : List String) (x : String) → xs ++ x ∷ [] ≡ [] → ⊥
snoc-nonempty [] x e = cc e
snoc-nonempty (y ∷ ys) x e = cc e

complain-none :
    (f kind : String) (found : Option ArtifactRow) (c : Complaints)
    → complain f kind found c ≡ ([], [])
    → (c ≡ ([], [])) × ((artifact : ArtifactRow) × (found ≡ some artifact) × (artifact.kind ≡ kind))
unfolding complain
complain-none f kind none c e = absurd (snoc-nonempty c.0 f (ap (λ d. d.0) e))
complain-none f kind (some artifact) c e = elim (Bool-cases (artifact.kind == kind)) [
  | inl t ↦ (rw t at e, (artifact, refl, (eq_iff artifact.kind kind).0 t))
  | inr n ↦ absurd (snoc-nonempty c.1 _ (ap (λ d. d.1) (rw n at e)))
]

check_fields-none :
    (contract : List (String × String)) (db : Db) (fs : List (String × String)) (c : Complaints)
    → check_fields contract db fs c ≡ ok ([], [])
    → (c ≡ ([], [])) × All (IsBacked contract db) fs
unfolding check_fields IsBacked
check_fields-none contract db [] c e = (cc e, tt)
check_fields-none contract db ((f, kind) ∷ fs) c e = elim (Option-cases (lookup f contract)) [
  | inl missing ↦ absurd (ground arith)
  | inr (h, is_h) ↦
      let (clean, backed) =
        check_fields-none contract db fs (complain f kind (find_artifact h db) c)
          (rw (check_fields, is_h) at e) in
      let (start, (artifact, found, right)) = complain-none f kind (find_artifact h db) c clean in
      (start, ((h, artifact, is_h, found, right), backed))
]

check_fields-backed :
    (contract : List (String × String)) (db : Db) (fs : List (String × String))
    → All (IsBacked contract db) fs
    → check_fields contract db fs ([], []) ≡ ok ([], [])
unfolding check_fields complain IsBacked
check_fields-backed contract db [] h = refl
check_fields-backed contract db ((f, kind) ∷ fs) ((h, artifact, is_h, found, right), rest) =
    rw (check_fields, is_h, found, (eq_iff artifact.kind kind).1 right)
      (check_fields-backed contract db fs rest)

judge-ok : (c : Complaints) → judge c ≡ ok tt → c ≡ ([], [])
unfolding judge
judge-ok ([], []) e = refl
judge-ok ([], w ∷ ws) e = cc e
judge-ok (m ∷ ms, w) e = cc e

judged-ok : (r : Result Complaints) → judged r ≡ ok tt → r ≡ ok ([], [])
unfolding judged
judged-ok (ok c) e = ap ok (judge-ok c e)
judged-ok (err x) e = cc e

-- A contract passes exactly if each of its five fields is there and names a registered artifact of
-- the kind that the field asks for.
pub validate_contract_registry_iff :
    (contract : List (String × String)) (db : Db)
    → (validate_contract_registry contract db ≡ ok tt) ↔ All (IsBacked contract db) mapping
unfolding validate_contract_registry judged judge
validate_contract_registry_iff contract db = (
  (λ e. (check_fields-none contract db mapping ([], []) (judged-ok _ e)).1),
  (λ h. rw (check_fields-backed contract db mapping h)),
)
