-- ===== src/Auth/Refresh/Ended.antt =====
-- Calls of `refreshToken` of src/auth/auth.service.ts that fail, and those that come after
-- `revokeUserRefreshTokens`.
use stellar_tip_api.Common.{
  ℕ, Bool, false, not, ◌&&◌, String, ◌==◌, ◌≡◌, ◌≢◌, ap, ◌∙◌, ◌⊎◌, inl, inr, arith, eq_iff, ltb,
}
use stellar_tip_api.Http.{
  Exception, ok, throws, bind-throws-cases, require_some-throws-cases, require-throws-cases,
  lift-throws-cases,
}
use stellar_tip_api.Entities.{RefreshToken, User}
use stellar_tip_api.Database.{Database, Has, set_where, insert_refresh_token, update_refresh_tokens}
use stellar_tip_api.Database.Laws.{
  Has-set_where, insert_refresh_token-throws, update_refresh_tokens-inv,
  update_refresh_tokens-throws,
}
use stellar_tip_api.Auth.{
  AuthService, JwtPayload, Session, create_refresh_token, issue, access_token_expires_in,
}
use stellar_tip_api.Auth.Refresh.{
  revoked, usable, check_refresh, rotate, refresh_token, revoke_user_refresh_tokens,
}
use stellar_tip_api.Auth.Refresh.Rotation.{next_columns, IsSpendable, check_refresh-IsSpendable}
use stellar_tip_api.Auth.Refresh.Spent.{refresh_rotates_token}

module _ (service : AuthService) where
  pub issue-throws :
      (now : ℕ) (token : String) (payload : JwtPayload) (db db' : Database) (e : Exception)
      → issue service now token payload db ≡ (throws e, db')
      → db' ≡ db
  unfolding issue create_refresh_token
  issue-throws now token payload db db' e h =
      elim (lift-throws-cases (service.sign now payload (access_token_expires_in service)) _ db h) [
        | inl same ↦ same
        | inr (access, signed, h1) ↦
            elim (bind-throws-cases (create_refresh_token service now token payload.sub) _ db h1) [
              | inl h2 ↦
                  elim (bind-throws-cases
                    (insert_refresh_token service.orm (next_columns service now token payload.sub))
                    _ db h2) [
                      | inl h3 ↦
                          insert_refresh_token-throws service.orm
                            (next_columns service now token payload.sub) db db' h3
                      | inr (row, t, h3, h4) ↦ absurd (ground (arith, ap (λ p. p.0) h4))
                    ]
              | inr (made, t, h2, h3) ↦ absurd (ground (arith, ap (λ p. p.0) h3))
            ]
      ]

  check_refresh-throws :
      (now : ℕ) (token : String) (db db' : Database) (e : Exception)
      → check_refresh service now token db ≡ (throws e, db')
      → db' ≡ db
  unfolding check_refresh
  check_refresh-throws now token db db' e h =
      let find = service.orm.refresh_tokens.find_one (usable service token) db.refresh_tokens in
      elim (require_some-throws-cases find _ _ db h) [
        | inl same ↦ same
        | inr (row, found, h1) ↦
            elim (require-throws-cases (not (ltb row.columns.expires_at now)) _ _ db h1) [
              | inl same ↦ same
              | inr h2 ↦
                  elim (require_some-throws-cases
                    (service.orm.users.find_one (λ u. u.id == row.columns.user_id) db.users) _ _ db
                    h2) [
                      | inl same ↦ same
                      | inr (user, joined, h3) ↦
                          elim (require-throws-cases user.columns.is_active _ _ db h3) [
                            | inl same ↦ same
                            | inr h4 ↦ absurd (ground (arith, ap (λ p. p.0) h4))
                          ]
                    ]
            ]
      ]

  -- A refresh that throws either changed nothing, or was a request for a token that could be
  -- spent: that token is then revoked and no other is stored.
  pub failed_refresh :
      (now : ℕ) (new_token token : String) (db db' : Database) (e : Exception)
      → refresh_token service now new_token token db ≡ (throws e, db')
      → (db' ≡ db)
        ⊎ ((row : RefreshToken) × (user : User) × IsSpendable service now token db row user
            × (db' ≡ record db {
              refresh_tokens = set_where (λ r. r.id == row.id) revoked db.refresh_tokens;
            }))
  unfolding refresh_token rotate
  failed_refresh now new_token token db db' e h =
      elim (bind-throws-cases (check_refresh service now token) _ db h) [
        | inl early ↦ inl (check_refresh-throws now token db db' e early)
        | inr ((row, user), db1, checked, h1) ↦
            let (spendable, same) =
              check_refresh-IsSpendable service now token db db1 row user checked in
            elim (bind-throws-cases
              (update_refresh_tokens service.orm (λ r. r.id == row.id) revoked) _ db1 h1) [
                | inl late ↦
                    inl (update_refresh_tokens-throws service.orm _ revoked db1 db' late ∙ same)
                | inr (done, db2, updated, h2) ↦ inr (
                  row,
                  user,
                  spendable,
                  issue-throws now new_token _ db2 db' e h2
                      ∙ update_refresh_tokens-inv service.orm _ revoked db1 db2 updated
                      ∙ ap {A = Database}
                          (λ d. record d {
                            refresh_tokens =
                                set_where (λ r. r.id == row.id) revoked d.refresh_tokens;
                          })
                          same,
                )
              ]
      ]

  -- After a user's tokens were revoked, a refresh that answers spent a token of another user.
  pub ended_sessions :
      (user_id : String) (now : ℕ) (new_token token : String) (db db1 db' : Database)
      (session : Session)
      → revoke_user_refresh_tokens service user_id db ≡ (ok tt, db1)
      → refresh_token service now new_token token db1 ≡ (ok session, db')
      → (row : RefreshToken) × Has row db.refresh_tokens
        × (row.columns.token ≡ token)
        × (row.columns.user_id ≢ user_id)
  unfolding revoke_user_refresh_tokens
  ended_sessions user_id now new_token token db db1 db' session h k =
      let theirs : RefreshToken → Bool =
        λ r. r.columns.user_id == user_id && not r.columns.is_revoked in
      let ended = update_refresh_tokens-inv service.orm theirs revoked db db1 h in
      let (row, user, spendable, rotated) =
        refresh_rotates_token service now new_token token db1 db' session k in
      let (y, listed, case) =
        Has-set_where theirs revoked row db.refresh_tokens (rw ended at spendable.listed) in
      elim case [
        | inl (here, e) ↦
            absurd (ground (arith, ap (λ r. r.columns.is_revoked) e, spendable.unrevoked))
        | inr (other, e) ↦ (
          row,
          rw e listed,
          spendable.named,
          λ same.
              let unrevoked = spendable.unrevoked in
              let differs : (row.columns.user_id == user_id && not row.columns.is_revoked) ≡ false =
                rw e other in
              ground (arith, differs, unrevoked, eq_iff row.columns.user_id user_id, same),
        )
      ]
