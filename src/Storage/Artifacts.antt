-- ===== src/Storage/Artifacts.antt =====
-- The contract registry of app/storage.py.
pub mod Registry
use gpt_project_bridge.Base.{
  String, ◌<>◌, Bool, true, false, not, ◌||◌, Option, none, some, List, [], ◌∷◌, ◌++◌, Result, ok,
  err, Exn, value_error, permission_error, key_error, Action, pure, raise, raise_if, gets, modify,
  transaction, ◌>>=◌, ◌>>◌, find_first, any_of, ◌==◌, if◌then◌else◌,
}
use gpt_project_bridge.Base.Dict.{lookup}
use gpt_project_bridge.Base.Text.{join_with, sort_texts}
use gpt_project_bridge.Json.{Fields, str, obj, to_fields}
use gpt_project_bridge.Json.Dump.{canonical_json}
use gpt_project_bridge.Host.{Host, stable_hash}
use gpt_project_bridge.Storage.Tables.{Db, ArtifactRow, Env}
use gpt_project_bridge.Storage.Ledger.{Receipt, append_ledger_tx}

abbrev pub contract_kinds : List String
contract_kinds = "ontology" ∷ "policy" ∷ "task" ∷ "rubric" ∷ "memory_policy" ∷ []

-- The answer of a registration; a repeated one has no receipt.
pub record Registered : Type 0 where
  pub row : ArtifactRow
  pub receipt : Option Receipt

-- `SELECT * FROM contract_artifacts WHERE artifact_hash=?`
unfoldable pub find_artifact : String → Db → Option ArtifactRow
find_artifact artifact_hash db = find_first (λ row. row.artifact_hash == artifact_hash) db.artifacts

unfoldable pub artifact_event : ArtifactRow → Fields
artifact_event row = to_fields (
    ("event_type", str "CONTRACT_ARTIFACT_REGISTERED")
    ∷ ("artifact_hash", str row.artifact_hash)
    ∷ ("kind", str row.kind)
    ∷ ("version", str row.version)
    ∷ ("created_by", str row.created_by)
    ∷ ("created_at", str row.created_at)
    ∷ [])

module _ (H : Host) where
  -- what is done where the hash is already registered, and where it is new
  unfoldable pub register_found : Env → ArtifactRow → Option ArtifactRow → Action Db Registered
  register_found env row (some existing) = do
    raise_if
        (not (existing.kind == row.kind)
          || not (canonical_json (obj existing.content) == canonical_json (obj row.content)))
        (value_error "contract artifact hash collision or kind mismatch")
    pure (record { row = existing; receipt = none })
  register_found env row none = do
    modify (λ db. record db { artifacts = db.artifacts ++ row ∷ [] })
    receipt ← append_ledger_tx H env (artifact_event row) "PASS"
    pure (record { row = row; receipt = some receipt })

  unfoldable pub register_contract_artifact :
      Env
      → (kind version : String) → (content : Fields) → (created_by : String) → Action Db Registered
  unfolding register_found
  register_contract_artifact env kind version content created_by =
      let row : ArtifactRow = record {
        artifact_hash = stable_hash H (obj content);
        kind = kind;
        version = version;
        content = content;
        created_by = created_by;
        created_at = env.now;
      } in
      do
        raise_if (not (any_of (λ k. k == kind) contract_kinds))
            (value_error ("unsupported contract artifact kind: " <> kind))
        transaction
            (do existing ← gets (find_artifact row.artifact_hash); register_found env row existing)

-- the fields of a frozen contract with the kind of artifact that each names
abbrev pub mapping : List (String × String)
mapping =
    ("ontology_hash", "ontology")
    ∷ ("policy_hash", "policy")
    ∷ ("task_hash", "task")
    ∷ ("rubric_hash", "rubric")
    ∷ ("memory_policy_hash", "memory_policy")
    ∷ []

-- the lists `missing` and `wrong`
abbrev pub Complaints : Type 0
Complaints = List String × List String

complain : String → String → Option ArtifactRow → Complaints → Complaints
complain f kind none (missing, wrong) = (missing ++ f ∷ [], wrong)
complain f kind (some artifact) (missing, wrong) =
    if artifact.kind == kind
    then (missing, wrong)
    else (missing, wrong ++ (f <> ":" <> artifact.kind <> "!=expected:" <> kind) ∷ [])

check_fields : List (String × String) → Db → List (String × String) → Complaints → Result Complaints
unfolding complain find_artifact
check_fields contract db [] c = ok c
check_fields contract db ((f, kind) ∷ rest) c = elim (lookup f contract) [
  | none ↦ err (key_error f)
  | some artifact_hash ↦
      check_fields contract db rest (complain f kind (find_artifact artifact_hash db) c)
]

detail : List String → List String → List String
detail [] [] = []
detail (m ∷ ms) [] = ("unregistered=" <> join_with "," (sort_texts (m ∷ ms))) ∷ []
detail [] (w ∷ ws) = ("kind_mismatch=" <> join_with "," (sort_texts (w ∷ ws))) ∷ []
detail (m ∷ ms) (w ∷ ws) =
    ("unregistered=" <> join_with "," (sort_texts (m ∷ ms)))
    ∷ ("kind_mismatch=" <> join_with "," (sort_texts (w ∷ ws)))
    ∷ []

judge : Complaints → Result (Unit {0})
unfolding detail
judge ([], []) = ok tt
judge (missing, wrong) = err (
    permission_error
      ("contract registry validation failed: " <> join_with "; " (detail missing wrong)))

judged : Result Complaints → Result (Unit {0})
unfolding judge
judged (ok c) = judge c
judged (err e) = err e

unfoldable pub validate_contract_registry : List (String × String) → Db → Result (Unit {0})
unfolding check_fields judged
validate_contract_registry contract db = judged (check_fields contract db mapping ([], []))
