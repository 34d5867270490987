-- ===== src/Auth/Refresh/Rotation.antt =====
-- What a call of `refreshToken` of src/auth/auth.service.ts leaves, and what becomes of the token.
use stellar_tip_api.Common.{
  ℕ, ◌≤◌, true, false, not, String, ◌==◌, ◌≡◌, ◌≢◌, sym, ap, ◌∙◌, ◌∷◌, arith, ltb, eq_iff,
  Bool-cases,
}
use stellar_tip_api.Http.{
  ok, bind-inv, require_some-inv, lift-inv-state, require-inv-state, pure-inv,
}
use stellar_tip_api.Entities.{RefreshToken, RefreshTokenColumns, User}
use stellar_tip_api.Database.{Database, Has, insert_refresh_token}
use stellar_tip_api.Database.Laws.{insert_refresh_token-inv}
use stellar_tip_api.Auth.{
  AuthService, JwtPayload, Session, create_refresh_token, issue, access_token_expires_in,
}
use stellar_tip_api.Auth.Refresh.{usable, check_refresh}

module _ (service : AuthService) where
  abbrev pub next_columns : ℕ → String → String → RefreshTokenColumns
  next_columns now token user_id = record {
    user_id = user_id;
    token = token;
    expires_at = service.refresh_expiry now;
    is_revoked = false;
  }

  create_refresh_token-inv :
      (now : ℕ) (token user_id made : String) (db db' : Database)
      → create_refresh_token service now token user_id db ≡ (ok made, db')
      → (row : RefreshToken) × (row.columns ≡ next_columns now token user_id)
        × (db' ≡ record db { refresh_tokens = row ∷ db.refresh_tokens })
        × (made ≡ token)
        × ((x : RefreshToken) → Has x db.refresh_tokens → x.id ≢ row.id)
  unfolding create_refresh_token
  create_refresh_token-inv now token user_id made db db' h =
      let (row, db1, e, h1) =
        bind-inv (insert_refresh_token service.orm (next_columns now token user_id)) _ db h in
      let (columns, after, fresh) =
        insert_refresh_token-inv service.orm (next_columns now token user_id) db db1 row e in
      let (same, rest) = pure-inv h1 in (row, columns, rest ∙ after, sym same, fresh)

  -- A session that was issued has one new row.
  pub issue-inv :
      (now : ℕ) (token : String) (payload : JwtPayload) (db db' : Database) (session : Session)
      → issue service now token payload db ≡ (ok session, db')
      → (row : RefreshToken) × (row.columns ≡ next_columns now token payload.sub)
        × (db' ≡ record db { refresh_tokens = row ∷ db.refresh_tokens })
        × (session.refresh_token ≡ token)
        × (service.sign now payload (access_token_expires_in service) ≡ ok session.access_token)
        × ((x : RefreshToken) → Has x db.refresh_tokens → x.id ≢ row.id)
  unfolding issue
  issue-inv now token payload db db' session h =
      let (access, signed, h1) =
        lift-inv-state (service.sign now payload (access_token_expires_in service)) _ db h in
      let (t, db1, e1, h2) =
        bind-inv (create_refresh_token service now token payload.sub) _ db h1 in
      let (row, columns, after, same, fresh) =
        create_refresh_token-inv now token payload.sub t db db1 e1 in
      let (made, rest) = pure-inv h2 in
      (
        row,
        columns,
        rest ∙ after,
        ap (λ s. s.refresh_token) (sym made) ∙ same,
        signed ∙ ap (λ s. ok s.access_token) made,
        fresh,
      )

  -- The token that a request may spend: it is stored, not revoked, not expired, and its user is
  -- active.
  pub record IsSpendable (now : ℕ) (token : String) (db : Database) (row : RefreshToken)
      (user : User) : Type 0 where
    pub listed : Has row db.refresh_tokens
    pub named : row.columns.token ≡ token
    pub unrevoked : row.columns.is_revoked ≡ false
    pub unexpired : now ≤ row.columns.expires_at
    pub registered : Has user db.users
    pub owner : user.id ≡ row.columns.user_id
    pub active : user.columns.is_active ≡ true

  pub usable-inv :
      (token : String) (row : RefreshToken)
      → usable service token row ≡ true
      → (row.columns.token ≡ token) × (row.columns.is_revoked ≡ false)
  usable-inv token row h = ground (
    arith,
    eq_iff row.columns.token token,
    Bool-cases row.columns.is_revoked,
    Bool-cases (row.columns.token == token),
  )

  pub check_refresh-IsSpendable :
      (now : ℕ) (token : String) (db db' : Database) (row : RefreshToken) (user : User)
      → check_refresh service now token db ≡ (ok (row, user), db')
      → IsSpendable now token db row user × (db' ≡ db)
  unfolding check_refresh
  check_refresh-IsSpendable now token db db' row user h =
      let find = service.orm.refresh_tokens.find_one (usable service token) db.refresh_tokens in
      let (r, found, h1) = require_some-inv find _ _ db h in
      let (listed, can) = service.orm.refresh_tokens.find_one_some _ db.refresh_tokens r found in
      let (named, unrevoked) = usable-inv token r can in
      let join = service.orm.users.find_one (λ u. u.id == r.columns.user_id) db.users in
      let (unexpired, h2) = require-inv-state (not (ltb r.columns.expires_at now)) _ _ db h1 in
      let (u, joined, h3) = require_some-inv join _ _ db h2 in
      let (registered, owner) = service.orm.users.find_one_some _ db.users u joined in
      let (active, h4) = require-inv-state u.columns.is_active _ _ db h3 in
      let (same, rest) = pure-inv h4 in
      let late : now ≤ r.columns.expires_at = ground (arith, unexpired) in
      let spendable : IsSpendable now token db r u = record {
        listed = listed;
        named = named;
        unrevoked = unrevoked;
        unexpired = late;
        registered = registered;
        owner = (eq_iff u.id r.columns.user_id).0 owner;
        active = active;
      } in
      (rw (← ap (λ p. p.0) same) (rw (← ap (λ p. p.1) same) spendable), rest)
