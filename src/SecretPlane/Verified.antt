-- ===== src/SecretPlane/Verified.antt =====
-- What an execution with a secret has checked (app/secret_plane.py).
use gpt_project_bridge.Base.{
  ℕ, ◌<◌, String, ◌≡◌, refl, sym, ap, subst, ◌∙◌, inl, inr, arith, Bool, true, false, Option, some,
  ok, leb, nat_eq, nat_eq_iff, Bool-cases, Option-cases, Result-cases, ◌>>◌, eq_refl,
}
use gpt_project_bridge.Base.Dict.{lookup}
use gpt_project_bridge.Base.Inversion.{bind-ok}
use gpt_project_bridge.Base.Text.Ascii.{is_ascii}
use gpt_project_bridge.Host.{Host, compare_digest, compare_digest-eq}
use gpt_project_bridge.SecretPlane.Data.{
  Descriptor, Policy, Lease, is_active, signed_payload, disclosure,
}
use gpt_project_bridge.SecretPlane.Store.{LeaseStore, can_use, use_answer-true}
use gpt_project_bridge.SecretPlane.Material.{Bytes, Vault, Value, contains_secret, is_empty_bytes}
use gpt_project_bridge.SecretPlane.Found.{Occurs, contains_secret-Occurs}
use gpt_project_bridge.SecretPlane.Plane.{
  Plane, Consumed, returns, raises_plane, raises_other, sign_payload, audit, descriptor, policy_of,
  on_leases, expired,
}
use gpt_project_bridge.SecretPlane.Use.{
  denial, verify_lease, check_used, use_once, fetch, take_material, judge_result, after_consumer,
  execute_with_secret,
}

module _ (H : Host) (mac : String → String) (S : LeaseStore) (V : Vault) where
  -- what `verify_lease` checks of a lease at a time
  pub record Verified (now : ℕ) (l : Lease) (s : Plane S V) : Type 0 where
    pub of : Descriptor
    pub under : Policy
    pub known : lookup l.secret_id s.descriptors ≡ some of
    pub ruled : lookup l.secret_id s.policies ≡ some under
    pub signed : sign_payload H mac (signed_payload l) ≡ l.signature
    pub live : is_active of.state ≡ true
    pub current : of.version ≡ l.secret_version
    pub in_time : now < l.expires_at
    pub not_expired : expired now of.expires_at ≡ false
    pub allowed : (disclosure under l.actor l.capability l.scope).0 ≡ true

  verify_lease-ok :
      (now : ℕ) (l : Lease) (s t : Plane S V) {d : Descriptor}
      → verify_lease H mac S V now l s ≡ (ok d, t)
      → (lookup l.secret_id s.descriptors ≡ some d)
        × (compare_digest (sign_payload H mac (signed_payload l)) l.signature ≡ ok true)
        × (is_active d.state ≡ true)
        × (nat_eq d.version l.secret_version ≡ true)
        × (leb l.expires_at now ≡ false)
        × (expired now d.expires_at ≡ false)
        × (t ≡ s)
  unfolding verify_lease descriptor policy_of
  verify_lease-ok now l s t {d} e = ground arith

  verify_lease-denial :
      (now : ℕ) (l : Lease) (s t : Plane S V) {d : Descriptor}
      → verify_lease H mac S V now l s ≡ (ok d, t)
      → (p : Policy) × (lookup l.secret_id s.policies ≡ some p)
        × (denial (disclosure p l.actor l.capability l.scope) ≡ ok tt)
  unfolding verify_lease descriptor policy_of
  verify_lease-denial now l s t {d} e = elim (Option-cases (lookup l.secret_id s.policies)) [
    | inl x ↦ absurd (ground arith)
    | inr x ↦ (x.0, x.1, ground arith)
  ]

  denial-ok : (answer : Bool × String) → denial answer ≡ ok tt → answer.0 ≡ true
  denial-ok (true, reason) e = refl
  denial-ok (false, reason) e = cc e

  pub verify_lease-Verified :
      (now : ℕ) (l : Lease) (s t : Plane S V) {d : Descriptor}
      → verify_lease H mac S V now l s ≡ (ok d, t)
      → Verified now l s × (t ≡ s)
  verify_lease-Verified now l s t {d} e =
      let checks = verify_lease-ok now l s t e in
      let (p, ruled, answer) = verify_lease-denial now l s t e in
      (
        record {
          of = d;
          under = p;
          known = checks.0;
          ruled = ruled;
          signed = compare_digest-eq (sign_payload H mac (signed_payload l)) l.signature checks.1;
          live = checks.2;
          current = (nat_eq_iff d.version l.secret_version).0 checks.3;
          in_time = ground (arith, checks.4);
          not_expired = checks.5;
          allowed = denial-ok (disclosure p l.actor l.capability l.scope) answer;
        },
        checks.6,
      )

  compare_digest_self : (a b : String) → is_ascii b ≡ true → a ≡ b → compare_digest a b ≡ ok true
  unfolding compare_digest
  compare_digest_self a b h e = rw e (rw (h, eq_refl b) refl)

  denial-allowed : (answer : Bool × String) → answer.0 ≡ true → denial answer ≡ ok tt
  denial-allowed (true, reason) e = refl
  denial-allowed (false, reason) e = cc e

  pub Verified-verify_lease :
      (now : ℕ) (l : Lease) (s : Plane S V)
      → is_ascii l.signature ≡ true
      → (v : Verified now l s) → verify_lease H mac S V now l s ≡ (ok v.of, s)
  unfolding verify_lease descriptor policy_of
  Verified-verify_lease now l s h v =
      let same =
        compare_digest_self (sign_payload H mac (signed_payload l)) l.signature h v.signed in
      let version = (nat_eq_iff v.of.version l.secret_version).1 v.current in
      let time : leb l.expires_at now ≡ false = let t = v.in_time in ground arith in
      let answer = denial-allowed (disclosure v.under l.actor l.capability l.scope) v.allowed in
      rw (same, v.known, v.live, version, time, v.not_expired)
        (rw v.known (rw v.ruled (rw answer (rw v.known (rw v.ruled refl)))))

  use_once-rest :
      (now : ℕ) (l : Lease) (s t : Plane S V) {u : Unit {0}}
      → use_once H mac S V now l s ≡ (ok u, t)
      → (can_use l (S.view s.leases l.lease_id) ≡ true)
        × (t.bindings ≡ s.bindings)
        × (t.vault ≡ s.vault)
  unfolding use_once on_leases check_used
  use_once-rest now l s t {u} e = elim (Result-cases (S.consume l s.leases).0) [
    | inl (true, x) ↦ (
      (use_answer-true (S.in_transaction s.leases) _ (sym (S.consume-answer l s.leases) ∙ x)).1,
      ground arith,
      ground arith,
    )
    | inl (false, x) ↦ absurd (ground arith)
    | inr (y, x) ↦ absurd (ground arith)
  ]

  fetch-ok :
      (now : ℕ) (l : Lease) (s t : Plane S V) {raw : Bytes}
      → fetch H mac S V now l s ≡ (ok raw, t)
      → (locator : String) × (lookup l.secret_id s.bindings ≡ some locator)
        × (V.read locator s.vault ≡ ok raw)
        × (is_empty_bytes raw ≡ false)
  unfolding fetch
  fetch-ok now l s t {raw} e = elim (Option-cases (lookup l.secret_id s.bindings)) [
    | inl x ↦ absurd (ground arith)
    | inr x ↦ (x.0, x.1, ground arith, ground arith)
  ]

  module _ (decode : Bytes → Option String) where
    after_consumer-ok :
        (now : ℕ) (l : Lease) (raw : Bytes) (c : Consumed) (s t : Plane S V) {v : Value}
        → after_consumer H mac S V now decode l raw c s ≡ (ok v, t)
        → (c ≡ returns v) × (contains_secret decode raw v ≡ false)
    unfolding after_consumer judge_result audit
    after_consumer-ok now l raw (returns result) s t {v} e =
        elim (Bool-cases (contains_secret decode raw result)) [
          | inl x ↦ absurd (ground arith)
          | inr x ↦
              let same : result ≡ v = ground arith in
              (ap (λ r. returns r) same, subst (λ r. contains_secret decode raw r ≡ false) same x)
        ]
    after_consumer-ok now l raw (raises_plane x) s t {v} e = absurd (ground arith)
    after_consumer-ok now l raw (raises_other error_type x) s t {v} e = absurd (ground arith)

    -- What holds of an execution that returned.
    pub record Executed (now : ℕ) (l : Lease) (consumer : Bytes → Consumed) (s : Plane S V)
        (v : Value) : Type 0 where
      pub verified : Verified now l s
      pub usable : can_use l (S.view s.leases l.lease_id) ≡ true
      pub locator : String
      pub material : Bytes
      pub bound : lookup l.secret_id s.bindings ≡ some locator
      pub read : V.read locator s.vault ≡ ok material
      pub not_empty : is_empty_bytes material ≡ false
      pub consumed : consumer material ≡ returns v
      pub kept_in : Occurs decode material v → ⊥

    -- An execution with a secret returns only if the lease has the plane's signature, is of the current
    -- version of an active secret, is not expired, may be used once more and is allowed by the policy of
    -- the secret now; what it returns is what the consumer made of the material that the vault has under
    -- the secret's locator, and that material, which is not empty, stands in none of its texts, where
    -- `decode` reads the material, and in none of its bytes, at any depth of its mappings and sequences
    -- (objects of other kinds are not looked into).
    pub execute_with_secret-Executed :
        (now : ℕ) (l : Lease) (consumer : Bytes → Consumed) (s t : Plane S V) {v : Value}
        → execute_with_secret H mac S V now decode l consumer s ≡ (ok v, t)
        → Executed now l consumer s v
    unfolding execute_with_secret take_material
    execute_with_secret-Executed now l consumer s t {v} e =
        let (raw, s3, e3, k3) =
          bind-ok (take_material H mac S V now l)
            (λ raw. after_consumer H mac S V now decode l raw (consumer raw)) s e in
        let (d, s1, e1, k1) =
          bind-ok (verify_lease H mac S V now l)
            (λ _. use_once H mac S V now l >> fetch H mac S V now l) s e3 in
        let (u, s2, e2, k2) =
          bind-ok (use_once H mac S V now l) (λ _. fetch H mac S V now l) s1 k1 in
        let verified = verify_lease-Verified now l s s1 e1 in
        let once = use_once-rest now l s1 s2 e2 in
        let fetched = fetch-ok now l s2 s3 k2 in
        let after = after_consumer-ok now l raw (consumer raw) s3 t k3 in
        record {
          verified = verified.0;
          usable =
              ap (λ (x : Plane S V). can_use l (S.view x.leases l.lease_id)) (sym verified.1)
              ∙ once.0;
          locator = fetched.0;
          material = raw;
          bound =
              ap (λ (x : Plane S V). lookup l.secret_id x.bindings) (sym verified.1)
              ∙ ap (λ b. lookup l.secret_id b) (sym once.1)
              ∙ fetched.1;
          read =
              ap (λ (x : Plane S V). V.read fetched.0 x.vault) (sym verified.1)
              ∙ ap (λ v. V.read fetched.0 v) (sym once.2)
              ∙ fetched.2;
          not_empty = fetched.3;
          consumed = after.0;
          kept_in = λ found. cc (contains_secret-Occurs decode raw v fetched.3 found, after.1);
        }
