-- ===== src/Registry/Keys/Effective.antt =====
-- When a key of app/federation_key_registry.py is in force.
use gpt_project_bridge.Base.{ℕ, ◌≤◌, ◌<◌, String, ◌≡◌, ◌↔◌, true, Option, none, some, [], arith}
use gpt_project_bridge.Registry.Keys.{KeyRecord, effective_at, key_state_reasons}

abbrev pub Unrevoked : Option ℕ → ℕ → Type 0
Unrevoked none t = Unit
Unrevoked (some r) t = t < r

-- A key is in force from the beginning of its window up to, and not at, its end or its revocation;
-- and the gate has no reason against its state exactly at those times.
pub effective_at_lem :
    (r : KeyRecord) (t : ℕ) (role : String)
    → ((effective_at r t ≡ true)
        ↔ ((r.valid_from ≤ t) × (t < r.valid_until) × Unrevoked r.revoked_at t))
      × ((effective_at r t ≡ true) ↔ (key_state_reasons r t role ≡ []))
unfolding effective_at key_state_reasons
effective_at_lem r t role =
    ((λ h. ground arith, λ h. ground arith), (λ h. ground arith, λ h. ground arith))
