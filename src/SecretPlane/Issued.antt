-- ===== src/SecretPlane/Issued.antt =====
-- What `issue_lease` gives out (app/secret_plane.py).
use gpt_project_bridge.Base.{
  some_inj, ℕ, ◌+◌, ◌≤◌, ◌<◌, String, ◌≡◌, refl, sym, ap, subst, ◌∙◌, inl, inr, arith, Bool, true,
  false, some, ok, Option-cases,
}
use gpt_project_bridge.Base.Dict.{lookup}
use gpt_project_bridge.Host.{Host}
use gpt_project_bridge.Json.{put}
use gpt_project_bridge.Json.Dump.{canonical_json}
use gpt_project_bridge.SecretPlane.Data.{
  Descriptor, Policy, Lease, is_active, signed_payload, disclosure,
}
use gpt_project_bridge.SecretPlane.Store.{LeaseStore}
use gpt_project_bridge.SecretPlane.Material.{Vault}
use gpt_project_bridge.SecretPlane.Use.{verify_lease}
use gpt_project_bridge.SecretPlane.Verified.{Verified, Verified-verify_lease}
use gpt_project_bridge.Base.Text.Ascii.{is_ascii}
use gpt_project_bridge.SecretPlane.Plane.{
  Plane, Wanted, or_default, lease_base, sign_payload, new_lease, audit, descriptor, policy_of,
  on_leases, expired, hand_out, deny, decide_lease, check_live, issue_lease,
}

module _ (H : Host) (mac : String → String) where
  -- what is signed is what is verified
  new_lease-sign_payload :
      (now : ℕ) (nonce : String) (w : Wanted) (d : Descriptor) (ttl uses : ℕ)
      → sign_payload H mac (signed_payload (new_lease H mac now nonce w d ttl uses))
        ≡ (new_lease H mac now nonce w d ttl uses).signature
  unfolding sign_payload signed_payload new_lease lease_base put canonical_json
  new_lease-sign_payload now nonce w d ttl uses = refl

module _ (H : Host) (mac : String → String) (S : LeaseStore) (V : Vault) where
  pub issue_lease-lookup :
      (now : ℕ) (nonce : String) (w : Wanted) (s t : Plane S V) {l : Lease}
      → issue_lease H mac S V now nonce w s ≡ (ok l, t)
      → (d : Descriptor) × (p : Policy) × (lookup w.secret_id s.descriptors ≡ some d)
        × (lookup w.secret_id s.policies ≡ some p)
        × (is_active d.state ≡ true)
        × (decide_lease H mac S V now nonce w d p (disclosure p w.actor w.capability w.scope) s
            ≡ (ok l, t))
  unfolding issue_lease descriptor policy_of check_live
  issue_lease-lookup now nonce w s t {l} e =
      elim (Option-cases (lookup w.secret_id s.descriptors)) [
        | inl x ↦ absurd (ground arith)
        | inr x ↦ elim (Option-cases (lookup w.secret_id s.policies)) [
          | inl y ↦ absurd (ground arith)
          | inr y ↦ (x.0, y.0, x.1, y.1, ground arith, ground arith)
        ]
      ]

  hand_out-ok :
      (now : ℕ) (nonce : String) (w : Wanted) (d : Descriptor) (p : Policy) (s t : Plane S V)
      {l : Lease}
      → hand_out H mac S V now nonce w d p s ≡ (ok l, t)
      → (new_lease H mac now nonce w d
            (or_default p.max_ttl_seconds w.ttl_seconds)
            (or_default p.max_uses w.max_uses)
          ≡ l)
        × (t.descriptors ≡ s.descriptors)
        × (t.policies ≡ s.policies)
        × (or_default p.max_ttl_seconds w.ttl_seconds ≤ p.max_ttl_seconds)
        × (1 ≤ or_default p.max_uses w.max_uses)
        × (or_default p.max_uses w.max_uses ≤ p.max_uses)
  unfolding hand_out on_leases audit
  hand_out-ok now nonce w d p s t {l} e = ground arith

  pub decide_lease-ok :
      (now : ℕ) (nonce : String) (w : Wanted) (d : Descriptor) (p : Policy) (answer : Bool × String)
      (s t : Plane S V) {l : Lease}
      → decide_lease H mac S V now nonce w d p answer s ≡ (ok l, t)
      → (answer.0 ≡ true) × (hand_out H mac S V now nonce w d p s ≡ (ok l, t))
  unfolding decide_lease deny audit
  decide_lease-ok now nonce w d p (true, reason) s t {l} e = (refl, e)
  decide_lease-ok now nonce w d p (false, reason) s t {l} e = absurd (ground arith)

  -- What holds of a lease that was given out.
  pub record Granted (now : ℕ) (w : Wanted) (s t : Plane S V) (l : Lease) : Type 0 where
    pub of : Descriptor
    pub under : Policy
    pub known : lookup w.secret_id s.descriptors ≡ some of
    pub ruled : lookup w.secret_id s.policies ≡ some under
    pub live : is_active of.state ≡ true
    pub still_known : t.descriptors ≡ s.descriptors
    pub still_ruled : t.policies ≡ s.policies
    pub of_secret : (l.secret_id ≡ w.secret_id) × (l.secret_version ≡ of.version)
    pub for : (l.actor ≡ w.actor) × (l.capability ≡ w.capability) × (l.scope ≡ w.scope)
    pub allowed : (disclosure under w.actor w.capability w.scope).0 ≡ true
    pub in_time : l.expires_at ≤ now + under.max_ttl_seconds
    pub uses : (1 ≤ l.max_uses) × (l.max_uses ≤ under.max_uses)
    pub signed : sign_payload H mac (signed_payload l) ≡ l.signature

  -- A lease that is given out is of the current version of an active secret, is for what was asked and
  -- what the secret's policy allows, lasts and may be used at most as the policy says and at least once,
  -- and has the signature of the plane.
  pub issue_lease-Granted :
      (now : ℕ) (nonce : String) (w : Wanted) (s t : Plane S V) {l : Lease}
      → issue_lease H mac S V now nonce w s ≡ (ok l, t)
      → Granted now w s t l
  unfolding new_lease
  issue_lease-Granted now nonce w s t {l} e =
      let (d, p, known, ruled, live, decided) = issue_lease-lookup now nonce w s t e in
      let (allowed, handed) =
        decide_lease-ok now nonce w d p (disclosure p w.actor w.capability w.scope) s t decided in
      let ttl = or_default p.max_ttl_seconds w.ttl_seconds in
      let uses = or_default p.max_uses w.max_uses in
      let (lease, same_descriptors, same_policies, short, once, few) =
        hand_out-ok now nonce w d p s t handed in
      record {
        of = d;
        under = p;
        known = known;
        ruled = ruled;
        live = live;
        still_known = same_descriptors;
        still_ruled = same_policies;
        of_secret =
            subst (λ (x : Lease). (x.secret_id ≡ w.secret_id) × (x.secret_version ≡ d.version))
              lease (refl, refl);
        for =
            subst
              (λ (x : Lease).
                (x.actor ≡ w.actor) × (x.capability ≡ w.capability) × (x.scope ≡ w.scope))
              lease (refl, refl, refl);
        allowed = allowed;
        in_time =
            subst (λ (x : Lease). x.expires_at ≤ now + p.max_ttl_seconds) lease
              (omega (arith, short));
        uses =
            subst (λ (x : Lease). (1 ≤ x.max_uses) × (x.max_uses ≤ p.max_uses)) lease (once, few);
        signed =
            subst (λ (x : Lease). sign_payload H mac (signed_payload x) ≡ x.signature) lease
              (new_lease-sign_payload H mac now nonce w d ttl uses);
      }

  -- A lease that was given out is accepted, with the descriptor of its secret, until it or the secret is
  -- expired, as long as the plane is as it was.
  pub verify_lease-issue_lease :
      (now : ℕ) (nonce : String) (w : Wanted) (s t : Plane S V) {l : Lease}
      → ((message : String) → is_ascii (mac message) ≡ true)
      → issue_lease H mac S V now nonce w s ≡ (ok l, t)
      → (later : ℕ) → later < l.expires_at
      → (d : Descriptor) → lookup w.secret_id s.descriptors ≡ some d
      → expired later d.expires_at ≡ false
      → verify_lease H mac S V later l t ≡ (ok d, t)
  unfolding sign_payload
  verify_lease-issue_lease now nonce w s t {l} ascii e later time d known young =
      let g = issue_lease-Granted now nonce w s t e in
      let same : d ≡ g.of = some_inj (sym known ∙ g.known) in
      let v : Verified H mac S V later l t = record {
        of = d;
        under = g.under;
        known =
            ap (λ n. lookup n t.descriptors) g.of_secret.0
            ∙ ap (λ m. lookup w.secret_id m) g.still_known
            ∙ known;
        ruled =
            ap (λ n. lookup n t.policies) g.of_secret.0
            ∙ ap (λ m. lookup w.secret_id m) g.still_ruled
            ∙ g.ruled;
        signed = g.signed;
        live = ap (λ (x : Descriptor). is_active x.state) same ∙ g.live;
        current = ap (λ (x : Descriptor). x.version) same ∙ sym g.of_secret.1;
        in_time = time;
        not_expired = young;
        allowed =
            ap (λ (c : String × String × String). (disclosure g.under c.0 c.1 c.2).0)
              (λ i. (g.for.0 i, g.for.1 i, g.for.2 i))
            ∙ g.allowed;
      } in
      Verified-verify_lease H mac S V later l t (subst (λ m. is_ascii m ≡ true) g.signed (ascii _))
        v
