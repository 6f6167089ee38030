-- ===== src/Auth/Once.antt =====
-- No request of app/auth.py is accepted twice.
use gpt_project_bridge.Base.{
  some_inj, ℕ, ◌≤◌, ◌≡◌, ◌≢◌, sym, ap, ◌∙◌, subst, false, some, List, [], ◌∷◌, ok, arith, All,
}
use gpt_project_bridge.Host.{Host}
use gpt_project_bridge.Storage.Tables.{Db}
use gpt_project_bridge.Storage.Nonces.{consume_auth_nonce}
use gpt_project_bridge.Storage.Nonces.Once.{Use, consume_all, consume_auth_nonce-once}
use gpt_project_bridge.Auth.{
  Principal, Integer, pos, minus, Python, HttpRequest, outside_window, expiry, authenticate,
}
use gpt_project_bridge.Auth.Sound.{authenticate-IsVerified}

-- behind the expiry a timestamp is outside the window
within : (now : ℕ) (ts : Integer) → outside_window now ts ≡ false → now ≤ expiry ts
unfolding outside_window expiry
within now (pos t) h = ground arith
within now (minus n) h = ground arith

All-le :
    (us : List Use) {a b : ℕ}
    → a ≤ b
    → All (λ (u : Use). u.clock ≤ a) us
    → All (λ (u : Use). u.clock ≤ b) us
All-le [] le h = tt
All-le (u ∷ us) le h = (ground (arith, h.0), All-le us le h.1)

-- A request that was accepted is refused ever after, whatever its other parts become: no later request
-- of that principal with its nonce and its timestamp is accepted, after any uses of nonces in between
-- that do not run later, if SQLite's clock is not ahead of the time that the request is compared with.
pub authenticate-once :
    (H : Host) (P : Python) (now clock : ℕ) (q : HttpRequest) (s : Db) {p : Principal} {t : Db}
    → authenticate H P now clock q s ≡ (ok p, t)
    → (between : List Use) (later_now later_clock : ℕ) (again : HttpRequest)
    → All (λ (u : Use). u.clock ≤ later_clock) between
    → later_clock ≤ later_now
    → again.principal_id ≡ q.principal_id
    → again.nonce ≡ q.nonce
    → again.timestamp ≡ q.timestamp
    → (p' : Principal) (t' : Db)
    → authenticate H P later_now later_clock again (consume_all between t) ≢ (ok p', t')
authenticate-once H P now clock q s {p} {t} first between later_now later_clock again early le name
      nonce stamp p' t' second =
    let (_, _, v, _) = authenticate-IsVerified H P now clock q s first in
    let (_, _, w, _) =
      authenticate-IsVerified H P later_now later_clock again (consume_all between t) second in
    let same =
      some_inj (sym w.parsed ∙ subst (λ x. P.parse_int x ≡ some v.ts) (sym stamp) v.parsed) in
    let end = subst (λ x. later_now ≤ expiry x) same (within later_now w.ts w.in_window) in
    let refused =
      consume_auth_nonce-once q.principal_id q.nonce (expiry v.ts) clock s between later_clock
        (expiry w.ts) (ap (λ x. x.0) v.fresh) (All-le between (ground arith) early)
        (ground arith) in
    let after =
      subst
        (λ x.
          consume_auth_nonce later_clock q.principal_id q.nonce (expiry w.ts)
            (consume_all between x)
          ≡ (ok false, consume_all between x))
        (ap (λ x. x.1) v.fresh) refused in
    cc (ap (λ x. x.0) (sym (rw (name, nonce) at w.fresh) ∙ after))
