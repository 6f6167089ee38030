-- ===== src/Evidence.antt =====
-- app/evidence.py: Merkle roots and evidence receipts.
pub mod Levels
pub mod Merkle
use gpt_project_bridge.Base.{
  ℕ, zero, suc, ◌%◌, String, ◌<>◌, Bool, Option, none, some, List, [], ◌∷◌, ◌++◌, length, last?,
  nat_eq, leb, if◌then◌else◌,
}
use gpt_project_bridge.Json.{put, Json, Fields, obj, str, field, end}
use gpt_project_bridge.Json.Dump.{canonical_json}
use gpt_project_bridge.Host.{Host}

abbrev last_list : Option String → List String
last_list none = []
last_list (some s) = s ∷ []

-- `if len(level) % 2: level.append(level[-1])`
unfoldable pub pad : List String → List String
pad level = if nat_eq (length level % 2) 0 then level else level ++ last_list (last? level)

module _ (H : Host) where
  -- the digests of neighbours; `none` is the IndexError of a level of odd length
  unfoldable pub pair_up : List String → Option (List String)
  pair_up [] = some []
  pair_up (a ∷ []) = none
  pair_up (a ∷ b ∷ rest) = elim (pair_up rest) [
    | none ↦ none
    | some digests ↦ some (H.sha256 (a <> b) ∷ digests)
  ]

  -- `while len(level) > 1`; `none` stands for fuel that ran out or an error
  unfoldable pub merkle_loop : ℕ → List String → Option String
  merkle_loop fuel [] = none
  merkle_loop fuel (a ∷ []) = some a
  merkle_loop zero (a ∷ b ∷ rest) = none
  merkle_loop (suc fuel) (a ∷ b ∷ rest) = elim (pair_up (pad (a ∷ b ∷ rest))) [
    | none ↦ none
    | some level ↦ merkle_loop fuel level
  ]

  -- a level is at least halved, so its length is fuel enough
  unfoldable pub merkle_root : List String → Option String
  merkle_root [] = some (H.sha256 "")
  merkle_root (a ∷ rest) = merkle_loop (length (a ∷ rest)) (a ∷ rest)

  -- the root of the two hashes of a receipt
  unfoldable pub merkle_pair : String → String → String
  merkle_pair a b = H.sha256 (a <> b)

  unfoldable pub evidence_core : String → Fields → Fields → Fields
  unfolding merkle_pair
  evidence_core event_type inputs outputs =
      let input_hash = H.sha256 (canonical_json (obj inputs)) in
      let output_hash = H.sha256 (canonical_json (obj outputs)) in
      field "schema" (str "matverse.evidence-receipt.v1") (
        field "event_type" (str event_type) (
          field "input_hash" (str input_hash) (
            field "output_hash" (str output_hash)
              (field "merkle_root" (str (merkle_pair input_hash output_hash)) end))))

  -- `evidence_receipt(…)["receipt_hash"]`
  unfoldable pub receipt_hash : String → Fields → Fields → String
  receipt_hash event_type inputs outputs =
      H.sha256 (canonical_json (obj (evidence_core event_type inputs outputs)))

  -- `evidence_receipt`
  unfoldable pub evidence_receipt : String → Fields → Fields → Fields
  evidence_receipt event_type inputs outputs =
      put "receipt_hash" (str (receipt_hash event_type inputs outputs))
        (evidence_core event_type inputs outputs)
