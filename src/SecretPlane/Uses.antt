-- ===== src/SecretPlane/Uses.antt =====
-- How often the material of a secret is handed out under one lease (app/secret_plane.py).
use gpt_project_bridge.Base.{
  ℕ, ◌+◌, ◌-◌, ◌≤◌, ◌<◌, String, ◌≡◌, refl, sym, subst, ◌∙◌, inl, inr, ◌⊎◌, arith, true, false,
  ◌&&◌, Option, none, some, List, [], ◌∷◌, Result, ok, nat_eq, nat_eq_iff, Bool-cases, Result-cases,
  ◌>>◌, ◌==◌, eq_iff, eq_refl, if◌then◌else◌,
}
use gpt_project_bridge.Base.Inversion.{bind-ok, bind_eq}
use gpt_project_bridge.Host.{Host}
use gpt_project_bridge.SecretPlane.Data.{Lease}
use gpt_project_bridge.SecretPlane.Store.{
  LeaseState, LeaseStore, can_use, used, is_ok, use_answer-true,
}
use gpt_project_bridge.SecretPlane.Material.{Bytes, Vault, Value}
use gpt_project_bridge.SecretPlane.Plane.{Plane, Consumed, on_leases}
use gpt_project_bridge.SecretPlane.Use.{
  verify_lease, check_used, use_once, fetch, take_material, after_consumer, execute_with_secret,
}
use gpt_project_bridge.SecretPlane.Calls.{
  PlaneCall, registers, issues, verifies, executes, rebinds, revokes, destroys, call, call-Later,
}
use gpt_project_bridge.SecretPlane.Later.{Later, Since}
use gpt_project_bridge.SecretPlane.Later.Methods.{
  verify_lease-Later, fetch-Later, after_consumer-Later,
}

abbrev pub uses_of : Option LeaseState → ℕ
uses_of none = 0
uses_of (some st) = st.uses

Since-uses_of : (o p : Option LeaseState) → Since o p → uses_of o ≤ uses_of p
Since-uses_of none p h = omega arith
Since-uses_of (some a) none h = absurd h
Since-uses_of (some a) (some b) h = h.1

used-can_use :
    (l : Lease) (o : Option LeaseState)
    → can_use l o ≡ true
    → (uses_of o < l.max_uses) × (uses_of (used l o) ≡ uses_of o + 1)
used-can_use l none h = cc h
used-can_use l (some st) h = ground arith

module _ (H : Host) (mac : String → String) (decode : Bytes → Option String) (S : LeaseStore)
    (V : Vault) where
  -- the uses of a lease, by its id
  unfoldable pub uses_in : Plane S V → String → ℕ
  uses_in s id = uses_of (S.view s.leases id)

  Later-uses_in : (s t : Plane S V) (id : String) → Later S V s t → uses_in s id ≤ uses_in t id
  unfolding uses_in
  Later-uses_in s t id h = Since-uses_of (S.view s.leases id) (S.view t.leases id) (h.since id)

  -- the store allowed the use that succeeded
  use_once-consume :
      (now : ℕ) (l : Lease) (s t : Plane S V) {u : Unit {0}}
      → use_once H mac S V now l s ≡ (ok u, t)
      → ((S.consume l s.leases).0 ≡ ok true) × (t ≡ record s { leases = (S.consume l s.leases).1 })
  unfolding use_once on_leases check_used
  use_once-consume now l s t {u} e = elim (Result-cases (S.consume l s.leases).0) [
    | inl (true, x) ↦ (x, ground arith)
    | inl (false, x) ↦ absurd (ground arith)
    | inr (y, x) ↦ absurd (ground arith)
  ]

  pub use_once-can_use :
      (now : ℕ) (l : Lease) (s t : Plane S V) {u : Unit {0}}
      → use_once H mac S V now l s ≡ (ok u, t)
      → can_use l (S.view s.leases l.lease_id) ≡ true
  use_once-can_use now l s t e =
      let (let_through, _) = use_once-consume now l s t e in
      (use_answer-true (S.in_transaction s.leases) _
        (sym (S.consume-answer l s.leases) ∙ let_through)).1

  use_once-ok :
      (now : ℕ) (l : Lease) (s t : Plane S V) {u : Unit {0}}
      → use_once H mac S V now l s ≡ (ok u, t)
      → (uses_in s l.lease_id < l.max_uses) × (uses_in t l.lease_id ≡ uses_in s l.lease_id + 1)
  unfolding uses_in
  use_once-ok now l s t {u} e =
      let (let_through, there) = use_once-consume now l s t e in
      let (closed, allowed) =
        use_answer-true (S.in_transaction s.leases) (can_use l (S.view s.leases l.lease_id))
          (sym (S.consume-answer l s.leases) ∙ let_through) in
      let after = S.view-consume l s.leases l.lease_id in
      let left = used-can_use l (S.view s.leases l.lease_id) allowed in
      (left.0, rw (there, after, eq_refl l.lease_id, closed) left.1)

  -- where a material was handed out, the lease was used once, and the rest kept what was there
  pub take_material-use_once :
      (now : ℕ) (l : Lease) (s t : Plane S V) {raw : Bytes}
      → take_material H mac S V now l s ≡ (ok raw, t)
      → (s1 : Plane S V) × (s2 : Plane S V) × Later S V s s1
        × (use_once H mac S V now l s1 ≡ (ok tt, s2))
        × Later S V s2 t
  unfolding take_material
  take_material-use_once now l s t e =
      let (d, s1, e1, k1) =
        bind-ok (verify_lease H mac S V now l)
          (λ _. use_once H mac S V now l >> fetch H mac S V now l) s e in
      let (u, s2, e2, k2) = bind-ok (use_once H mac S V now l) (λ _. fetch H mac S V now l) s1 k1 in
      (
        s1,
        s2,
        subst (λ (v : Result _ × Plane S V). Later S V s v.1) e1
            ((verify_lease-Later H mac S V now l).at s),
        e2,
        subst (λ (v : Result _ × Plane S V). Later S V s2 v.1) k2
            ((fetch-Later H mac S V now l).at s2),
      )

  take_material-ok :
      (now : ℕ) (l : Lease) (s t : Plane S V) {raw : Bytes}
      → take_material H mac S V now l s ≡ (ok raw, t)
      → (uses_in s l.lease_id < l.max_uses) × (uses_in s l.lease_id < uses_in t l.lease_id)
  take_material-ok now l s t e =
      let (s1, s2, before, used_once, after) = take_material-use_once now l s t e in
      let once = use_once-ok now l s1 s2 used_once in
      let start = Later-uses_in s s1 l.lease_id before in
      let end = Later-uses_in s2 t l.lease_id after in
      (omega (arith, start, once.0), omega (arith, start, end, once.1))

  execute_with_secret-ok :
      (now : ℕ) (l : Lease) (consumer : Bytes → Consumed) (s t : Plane S V) {raw : Bytes}
      → take_material H mac S V now l s ≡ (ok raw, t)
      → uses_in t l.lease_id
        ≤ uses_in (execute_with_secret H mac S V now decode l consumer s).1 l.lease_id
  unfolding execute_with_secret
  execute_with_secret-ok now l consumer s t {raw} e =
      let run =
        bind_eq (take_material H mac S V now l)
          (λ raw. after_consumer H mac S V now decode l raw (consumer raw)) s e in
      subst (λ (v : Result Value × Plane S V). uses_in t l.lease_id ≤ uses_in v.1 l.lease_id)
        (sym run)
        (Later-uses_in t _ l.lease_id
          ((after_consumer-Later H mac S V now decode l raw (consumer raw)).at t))

  -- one if the call is an execution of a lease with this id and limit, and hands out its material
  unfoldable pub hands_out : (id : String) (limit now : ℕ) → PlaneCall → Plane S V → ℕ
  hands_out id limit now (executes l consumer) s =
      if l.lease_id == id && (nat_eq l.max_uses limit && is_ok (take_material H mac S V now l s).0)
      then 1
      else 0
  hands_out id limit now _ s = 0

  unfoldable pub times_out : (id : String) (limit : ℕ) → List (ℕ × PlaneCall) → Plane S V → ℕ
  unfolding hands_out call
  times_out id limit [] s = 0
  times_out id limit ((now, c) ∷ cs) s =
      hands_out id limit now c s + times_out id limit cs (call H mac decode S V now c s)

  hands_out-uses_in :
      (id : String) (limit now : ℕ) (c : PlaneCall) (s : Plane S V)
      → (hands_out id limit now c s ≡ 0)
        ⊎ ((hands_out id limit now c s ≡ 1)
            × (uses_in s id < limit)
            × (uses_in s id < uses_in (call H mac decode S V now c s) id))
  unfolding hands_out call
  hands_out-uses_in id limit now (registers d p locator) s = inl refl
  hands_out-uses_in id limit now (issues nonce w) s = inl refl
  hands_out-uses_in id limit now (verifies l) s = inl refl
  hands_out-uses_in id limit now (rebinds secret_id new_locator new_version) s = inl refl
  hands_out-uses_in id limit now (revokes secret_id) s = inl refl
  hands_out-uses_in id limit now (destroys secret_id) s = inl refl
  hands_out-uses_in id limit now (executes l consumer) s = elim (Bool-cases (l.lease_id == id)) [
    | inr x ↦ rw x (inl refl)
    | inl x ↦ elim (Bool-cases (nat_eq l.max_uses limit)) [
      | inr y ↦ rw (x, y) (inl refl)
      | inl y ↦ elim (Result-cases (take_material H mac S V now l s).0) [
        | inr f ↦ rw (x, y, f.1) (inl refl)
        | inl f ↦
            let ran =
              take_material-ok now l s _ (λ i. (f.1 i, (take_material H mac S V now l s).1)) in
            let rest =
              execute_with_secret-ok now l consumer s _
                (λ i. (f.1 i, (take_material H mac S V now l s).1)) in
            let same = (eq_iff l.lease_id id).0 x in
            let limits = (nat_eq_iff l.max_uses limit).0 y in
            rw (x, y, f.1)
              (inr (
                refl,
                subst (λ n. uses_in s n < limit) same (omega (arith, ran.0, limits)),
                subst
                    (λ n.
                      uses_in s n
                      < uses_in (execute_with_secret H mac S V now decode l consumer s).1 n)
                    same (omega (arith, ran.1, rest)),
              ))
      ]
    ]
  ]

  -- However the calls of the plane are ordered and whatever their times, the material of a secret is
  -- handed to consumers under a lease at most as often as the lease allows, less the uses that were
  -- counted before.
  pub times_out-uses_in :
      (id : String) (limit : ℕ) (cs : List (ℕ × PlaneCall)) (s : Plane S V)
      → times_out id limit cs s ≤ limit - uses_in s id
  unfolding times_out
  times_out-uses_in id limit [] s = omega arith
  times_out-uses_in id limit ((now, c) ∷ cs) s =
      let rest = times_out-uses_in id limit cs (call H mac decode S V now c s) in
      let more =
        Later-uses_in s (call H mac decode S V now c s) id (call-Later H mac decode S V now c s) in
      elim (hands_out-uses_in id limit now c s) [
        | inl x ↦ omega (arith, x, rest, more)
        | inr x ↦ omega (arith, x.0, x.1, x.2, rest)
      ]
