-- ===== src/SecretPlane/Logs.antt =====
-- The audit event of each method of app/secret_plane.py that returned.
use gpt_project_bridge.Base.{
  ℕ, String, ◌≡◌, ap, ◌∙◌, inl, inr, true, false, Option, some, [], ◌∷◌, ◌++◌, ok, ◌>>◌, Bool-cases,
  Result-cases, Option-cases, arith,
}
use gpt_project_bridge.Base.Dict.{lookup}
use gpt_project_bridge.Base.Inversion.{bind-ok}
use gpt_project_bridge.Host.{Host}
use gpt_project_bridge.Json.{Fields, str, num, obj, to_fields, put}
use gpt_project_bridge.SecretPlane.Data.{
  Descriptor, descriptor_dict, Policy, policy_dict, Lease, audit_dict, disclosure,
}
use gpt_project_bridge.SecretPlane.Store.{LeaseStore}
use gpt_project_bridge.SecretPlane.Material.{Bytes, Vault, Value, contains_secret}
use gpt_project_bridge.SecretPlane.Plane.{
  Plane, Wanted, Consumed, returns, raises_plane, raises_other, audit_event, audit, descriptor,
  on_leases, on_vault, register_secret, new_lease, hand_out, issue_lease, or_default,
}
use gpt_project_bridge.SecretPlane.Use.{
  is_destroyed, verify_lease, check_used, use_once, fetch, take_material, judge_result,
  after_consumer, execute_with_secret, rebind_secret, end_secret, revoke_secret, destroy_bound,
  destroy_secret,
}
use gpt_project_bridge.SecretPlane.Issued.{issue_lease-lookup, decide_lease-ok}
use gpt_project_bridge.SecretPlane.Verified.{verify_lease-Verified}

module _ (H : Host) (mac : String → String) (S : LeaseStore) (V : Vault) (now : ℕ) where
  -- The second plane has one more event of that type, of this time, and it is the last one.
  abbrev pub Logs : String → Plane S V → Plane S V → Type 0
  Logs event_type s t =
      (payload : Fields) × (t.audit_events
        ≡ s.audit_events ++ audit_event H mac now event_type payload ∷ [])

  pub register_secret-Logs :
      (d : Descriptor) (p : Policy) (locator : String) (s t : Plane S V) {u : Unit {0}}
      → register_secret H mac S V now d p locator s ≡ (ok u, t)
      → Logs "SECRET_REGISTERED" s t
  unfolding register_secret audit
  register_secret-Logs d p locator s t {u} e = (
    to_fields (("descriptor", obj (descriptor_dict d)) ∷ ("policy", obj (policy_dict p)) ∷ []),
    ground arith,
  )

  hand_out-Logs :
      (nonce : String) (w : Wanted) (d : Descriptor) (p : Policy) (s t : Plane S V) {l : Lease}
      → hand_out H mac S V now nonce w d p s ≡ (ok l, t)
      → Logs "LEASE_ISSUED" s t
  unfolding hand_out on_leases audit
  hand_out-Logs nonce w d p s t {l} e = (
    audit_dict (
        new_lease H mac now nonce w d (or_default p.max_ttl_seconds w.ttl_seconds)
          (or_default p.max_uses w.max_uses)),
    ground arith,
  )

  pub issue_lease-Logs :
      (nonce : String) (w : Wanted) (s t : Plane S V) {l : Lease}
      → issue_lease H mac S V now nonce w s ≡ (ok l, t)
      → Logs "LEASE_ISSUED" s t
  issue_lease-Logs nonce w s t {l} e =
      let (d, p, known, ruled, live, decided) = issue_lease-lookup H mac S V now nonce w s t e in
      let (allowed, handed) =
        decide_lease-ok H mac S V now nonce w d p (disclosure p w.actor w.capability w.scope) s t
          decided in
      hand_out-Logs nonce w d p s t handed

  use_once-events :
      (l : Lease) (s t : Plane S V) {u : Unit {0}}
      → use_once H mac S V now l s ≡ (ok u, t)
      → t.audit_events ≡ s.audit_events
  unfolding use_once on_leases check_used
  use_once-events l s t {u} e = elim (Result-cases (S.consume l s.leases).0) [
    | inl (true, x) ↦ ground arith
    | inl (false, x) ↦ absurd (ground arith)
    | inr (y, x) ↦ absurd (ground arith)
  ]

  fetch-events :
      (l : Lease) (s t : Plane S V) {raw : Bytes}
      → fetch H mac S V now l s ≡ (ok raw, t)
      → t.audit_events ≡ s.audit_events
  unfolding fetch
  fetch-events l s t {raw} e = ground arith

  after_consumer-Logs :
      (decode : Bytes → Option String) (l : Lease) (raw : Bytes) (c : Consumed) (s t : Plane S V)
      {v : Value}
      → after_consumer H mac S V now decode l raw c s ≡ (ok v, t)
      → Logs "LEASE_USED" s t
  unfolding after_consumer judge_result audit
  after_consumer-Logs decode l raw (returns result) s t {v} e =
      elim (Bool-cases (contains_secret decode raw result)) [
        | inl x ↦ absurd (ground arith)
        | inr x ↦ (put "decision" (str "PASS") (audit_dict l), ground arith)
      ]
  after_consumer-Logs decode l raw (raises_plane x) s t {v} e = absurd (ground arith)
  after_consumer-Logs decode l raw (raises_other error_type x) s t {v} e = absurd (ground arith)

  pub execute_with_secret-Logs :
      (decode : Bytes → Option String) (l : Lease) (consumer : Bytes → Consumed) (s t : Plane S V)
      {v : Value}
      → execute_with_secret H mac S V now decode l consumer s ≡ (ok v, t)
      → Logs "LEASE_USED" s t
  unfolding execute_with_secret take_material
  execute_with_secret-Logs decode l consumer s t {v} e =
      let (raw, s3, e3, k3) =
        bind-ok (take_material H mac S V now l)
          (λ raw. after_consumer H mac S V now decode l raw (consumer raw)) s e in
      let (d, s1, e1, k1) =
        bind-ok (verify_lease H mac S V now l)
          (λ _. use_once H mac S V now l >> fetch H mac S V now l) s e3 in
      let (u, s2, e2, k2) = bind-ok (use_once H mac S V now l) (λ _. fetch H mac S V now l) s1 k1 in
      let (payload, logged) = after_consumer-Logs decode l raw (consumer raw) s3 t k3 in
      let same : s3.audit_events ≡ s.audit_events =
        fetch-events l s2 s3 k2
        ∙ use_once-events l s1 s2 e2
        ∙ ap (λ (x : Plane S V). x.audit_events)
            (verify_lease-Verified H mac S V now l s s1 e1).1 in
      (payload, logged ∙ ap (λ es. es ++ audit_event H mac now "LEASE_USED" payload ∷ []) same)

  pub rebind_secret-Logs :
      (secret_id new_locator : String) (new_version : ℕ) (s t : Plane S V) {d' : Descriptor}
      → rebind_secret H mac S V now secret_id new_locator new_version s ≡ (ok d', t)
      → Logs "SECRET_REBOUND" s t
  unfolding rebind_secret descriptor audit
  rebind_secret-Logs secret_id new_locator new_version s t {d'} e =
      elim (Option-cases (lookup secret_id s.descriptors)) [
        | inl x ↦ absurd (ground arith)
        | inr (d, x) ↦ (
          to_fields (
              ("secret_id", str secret_id)
              ∷ ("old_version", num d.version)
              ∷ ("new_version", num new_version)
              ∷ []),
          ground arith,
        )
      ]

  pub revoke_secret-Logs :
      (secret_id : String) (s t : Plane S V) {d' : Descriptor}
      → revoke_secret H mac S V now secret_id s ≡ (ok d', t)
      → Logs "SECRET_REVOKED" s t
  unfolding revoke_secret descriptor end_secret audit
  revoke_secret-Logs secret_id s t {d'} e = elim (Option-cases (lookup secret_id s.descriptors)) [
    | inl x ↦ absurd (ground arith)
    | inr (d, x) ↦
        (to_fields (("secret_id", str secret_id) ∷ ("version", num d.version) ∷ []), ground arith)
  ]

  -- a secret that was destroyed before is left, without an event
  pub destroy_secret-Logs :
      (secret_id : String) (s t : Plane S V) (d : Descriptor) {d' : Descriptor}
      → lookup secret_id s.descriptors ≡ some d
      → is_destroyed d.state ≡ false
      → destroy_secret H mac S V now secret_id s ≡ (ok d', t)
      → Logs "SECRET_DESTROYED" s t
  unfolding destroy_secret destroy_bound descriptor end_secret audit on_vault
  destroy_secret-Logs secret_id s t d {d'} known alive e =
      (to_fields (("secret_id", str secret_id) ∷ ("version", num d.version) ∷ []), ground arith)

  pub destroy_secret-again :
      (secret_id : String) (s t : Plane S V) (d : Descriptor) {d' : Descriptor}
      → lookup secret_id s.descriptors ≡ some d
      → is_destroyed d.state ≡ true
      → destroy_secret H mac S V now secret_id s ≡ (ok d', t)
      → t.audit_events ≡ s.audit_events
  unfolding destroy_secret descriptor
  destroy_secret-again secret_id s t d {d'} known gone e = ground arith
