-- ===== src/Storage/Nonces/Once.antt =====
-- A nonce that was consumed stays consumed until it expires, whatever else is consumed meanwhile.
use gpt_project_bridge.Base.{
  ℕ, ◌≤◌, String, ◌≡◌, true, false, not, ◌&&◌, List, [], ◌∷◌, ◌++◌, ok, arith, any_of, ltb, eq_refl,
  Bool-cases, inl, inr, All,
}
use gpt_project_bridge.Storage.Tables.{Db, NonceRow}
use gpt_project_bridge.Storage.Nonces.{is_nonce, live_nonces, consume_auth_nonce}

-- a call of `consume_auth_nonce` at a time
pub record Use : Type 0 where
  pub clock : ℕ
  pub principal_id : String
  pub nonce : String
  pub expires_at : ℕ

unfoldable pub consume_all : List Use → Db → Db
unfolding consume_auth_nonce
consume_all [] db = db
consume_all (u ∷ us) db =
    consume_all us (consume_auth_nonce u.clock u.principal_id u.nonce u.expires_at db).1

module _ (p n : String) (e : ℕ) where
  -- a row for the nonce that does not expire before `e`
  abbrev Holds : List NonceRow → Type 0
  Holds rows = any_of (λ row. is_nonce p n row && not (ltb row.expires_at e)) rows ≡ true

  Holds-append : (rows : List NonceRow) (row : NonceRow) → Holds rows → Holds (rows ++ row ∷ [])
  Holds-append [] row h = cc
  Holds-append (r ∷ rows) row h = ground (arith, Holds-append rows row)

  Holds-live :
      (clock : ℕ) (rows : List NonceRow) → clock ≤ e → Holds rows → Holds (live_nonces clock rows)
  Holds-live clock [] le h = h
  Holds-live clock (r ∷ rows) le h = ground (arith, Holds-live clock rows le)

  Holds-taken : (rows : List NonceRow) → Holds rows → any_of (is_nonce p n) rows ≡ true
  Holds-taken [] h = cc
  Holds-taken (r ∷ rows) h = ground (arith, Holds-taken rows)

  Holds-new :
      (rows : List NonceRow)
      → Holds (rows ++ record { principal_id = p; nonce = n; expires_at = e } ∷ [])
  Holds-new [] = ground (arith, eq_refl p, eq_refl n)
  Holds-new (r ∷ rows) = ground (arith, Holds-new rows)

  Holds-consume :
      (u : Use) (db : Db)
      → u.clock ≤ e
      → Holds db.nonces
      → Holds (consume_auth_nonce u.clock u.principal_id u.nonce u.expires_at db).1.nonces
  unfolding consume_auth_nonce
  Holds-consume u db le h =
      elim (Bool-cases (any_of (is_nonce u.principal_id u.nonce) (live_nonces u.clock db.nonces))) [
        | inl t ↦ rw t h
        | inr f ↦ rw f (Holds-append _ _ (Holds-live u.clock db.nonces le h))
      ]

  Holds-consume_all :
      (us : List Use) (db : Db)
      → All (λ u. u.clock ≤ e) us
      → Holds db.nonces
      → Holds (consume_all us db).nonces
  unfolding consume_all
  Holds-consume_all [] db a h = h
  Holds-consume_all (u ∷ us) db a h =
      Holds-consume_all us (consume_auth_nonce u.clock u.principal_id u.nonce u.expires_at db).1 a.1
        (Holds-consume u db a.0 h)

  Holds-refused :
      (clock expires_at : ℕ) (db : Db)
      → clock ≤ e
      → Holds db.nonces
      → consume_auth_nonce clock p n expires_at db ≡ (ok false, db)
  unfolding consume_auth_nonce
  Holds-refused clock expires_at db le h =
      rw (Holds-taken (live_nonces clock db.nonces) (Holds-live clock db.nonces le h))

  Holds-accepted :
      (clock : ℕ) (db : Db)
      → (consume_auth_nonce clock p n e db).0 ≡ ok true
      → Holds (consume_auth_nonce clock p n e db).1.nonces
  unfolding consume_auth_nonce
  Holds-accepted clock db h =
      elim (Bool-cases (any_of (is_nonce p n) (live_nonces clock db.nonces))) [
        | inl t ↦ absurd (ground arith)
        | inr f ↦ rw f (Holds-new (live_nonces clock db.nonces))
      ]

  -- Once a nonce has been consumed, a second call for it is refused and changes nothing, after any
  -- calls in between, as long as no call runs later than the expiry that the first one recorded.
  pub consume_auth_nonce-once :
      (clock : ℕ) (db : Db) (between : List Use) (later expires_at : ℕ)
      → (consume_auth_nonce clock p n e db).0 ≡ ok true
      → All (λ u. u.clock ≤ e) between
      → later ≤ e
      → let db' = consume_all between (consume_auth_nonce clock p n e db).1 in
        consume_auth_nonce later p n expires_at db' ≡ (ok false, db')
  consume_auth_nonce-once clock db between later expires_at first early le =
      Holds-refused later expires_at _ le
        (Holds-consume_all between _ early (Holds-accepted clock db first))
