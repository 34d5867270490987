-- ===== src/Auth/Sessions/Rotations.antt =====
-- What `refreshToken` and `revokeUserRefreshTokens` of src/auth/auth.service.ts do to the open
-- sessions.
use stellar_tip_api.Common.{
  ℕ, Bool, not, ◌&&◌, String, ◌==◌, ◌≡◌, ap, ◌∙◌, inl, inr, Option, ◌∷◌, arith,
}
use stellar_tip_api.Http.{Result, ok, throws, bind-inv, bind-throws-cases, pure-inv}
use stellar_tip_api.Entities.{RefreshToken, User}
use stellar_tip_api.Database.{Database, Has, set_where, update_refresh_tokens}
use stellar_tip_api.Database.Laws.{update_refresh_tokens-inv, update_refresh_tokens-throws}
use stellar_tip_api.Auth.{AuthService, Session}
use stellar_tip_api.Auth.Refresh.{revoked, refresh_token, revoke_user_refresh_tokens}
use stellar_tip_api.Auth.Refresh.Spent.{IsRotated, refresh_rotates_token}
use stellar_tip_api.Auth.Refresh.Ended.{failed_refresh}
use stellar_tip_api.Auth.Sessions.{
  without, has_token, opened, sessions, refresh, end_all, serve, refreshes, ends, refuses, loses,
}
use stellar_tip_api.Auth.Sessions.Refine.{
  IsKeyed, IsFresh, IsKeyed-insert, IsKeyed-revoked, IsFresh-revoked, Has-sessions, sessions-spent,
  sessions-ended, KeepsTo,
}

module _ (service : AuthService) where
  rotated-sessions :
      (now : ℕ) (new_token : String) (db db' : Database) (session : Session) (row : RefreshToken)
      (user : User)
      → IsKeyed db.refresh_tokens
      → IsFresh new_token db.refresh_tokens
      → Has row db.refresh_tokens
      → user.id ≡ row.columns.user_id
      → IsRotated service now new_token db db' session row user
      → (sessions db'.refresh_tokens
          ≡ record {
            token = new_token;
            user_id = row.columns.user_id;
            deadline = service.refresh_expiry now;
          }
            ∷ without (has_token row.columns.token) (sessions db.refresh_tokens))
        × IsKeyed db'.refresh_tokens
  unfolding sessions
  rotated-sessions now new_token db db' session row user keyed fresh listed owner rotated =
      let this : RefreshToken → Bool = λ r. r.id == row.id in
      let named : rotated.next.columns.token ≡ new_token = ap (λ c. c.token) rotated.columns in
      let still_fresh = IsFresh-revoked this new_token db.refresh_tokens fresh in
      (
        rw (rotated.after, rotated.columns, owner)
            (ap
              (λ os.
                record {
                  token = new_token;
                  user_id = row.columns.user_id;
                  deadline = service.refresh_expiry now;
                }
                ∷ os)
              (sessions-spent row db.refresh_tokens keyed listed)),
        rw rotated.after (
            IsKeyed-insert rotated.next (set_where this revoked db.refresh_tokens)
              (IsKeyed-revoked this db.refresh_tokens keyed) rotated.fresh
              (λ x m same. still_fresh x m (same ∙ named))),
      )

  pub refresh-refines :
      (now : ℕ) (new_token token : String) (answer : Result (Option Session)) (db db' : Database)
      → IsKeyed db.refresh_tokens
      → IsFresh new_token db.refresh_tokens
      → serve service (refresh now new_token token) db ≡ (answer, db')
      → KeepsTo service (refresh now new_token token) answer db db'
  unfolding serve
  refresh-refines now new_token token (ok answer) db db' keyed fresh h =
      let (session, db1, e, h1) = bind-inv (refresh_token service now new_token token) _ db h in
      let (told, rest) = pure-inv h1 in
      let (row, user, spendable, rotated) =
        refresh_rotates_token service now new_token token db db1 session e in
      let (after, keyed') =
        rotated-sessions now new_token db db1 session row user keyed fresh spendable.listed
          spendable.owner rotated in
      rw (rest, ← told, ← spendable.named, after)
        (
          refreshes now new_token session (opened row) (sessions db.refresh_tokens)
              rotated.handed_out
              (Has-sessions row db.refresh_tokens spendable.listed spendable.unrevoked)
              spendable.unexpired,
          keyed',
        )
  refresh-refines now new_token token (throws x) db db' keyed fresh h =
      elim (bind-throws-cases (refresh_token service now new_token token) _ db h) [
        | inr (session, db1, e, h1) ↦ absurd (ground (arith, ap (λ p. p.0) h1))
        | inl e ↦ elim (failed_refresh service now new_token token db db' x e) [
          | inl same ↦
              rw same (refuses (refresh now new_token token) x (sessions db.refresh_tokens), keyed)
          | inr (row, user, spendable, after) ↦
              rw
                (
                  after,
                  ← spendable.named,
                  sessions-spent row db.refresh_tokens keyed spendable.listed,
                )
                (
                  loses now new_token x (opened row) (sessions db.refresh_tokens)
                      (Has-sessions row db.refresh_tokens spendable.listed spendable.unrevoked),
                  IsKeyed-revoked (λ r. r.id == row.id) db.refresh_tokens keyed,
                )
        ]
      ]

  pub end_all-refines :
      (user_id : String) (answer : Result (Option Session)) (db db' : Database)
      → IsKeyed db.refresh_tokens
      → serve service (end_all user_id) db ≡ (answer, db')
      → KeepsTo service (end_all user_id) answer db db'
  unfolding serve revoke_user_refresh_tokens
  end_all-refines user_id (ok answer) db db' keyed h =
      let theirs : RefreshToken → Bool =
        λ r. r.columns.user_id == user_id && not r.columns.is_revoked in
      let (done', db1, e, h1) =
        bind-inv (update_refresh_tokens service.orm theirs revoked) _ db h in
      let (told, rest) = pure-inv h1 in
      let after = update_refresh_tokens-inv service.orm theirs revoked db db1 e in
      rw (rest, ← told, after, sessions-ended user_id db.refresh_tokens)
        (ends user_id (sessions db.refresh_tokens), IsKeyed-revoked theirs db.refresh_tokens keyed)
  end_all-refines user_id (throws x) db db' keyed h =
      let theirs : RefreshToken → Bool =
        λ r. r.columns.user_id == user_id && not r.columns.is_revoked in
      elim (bind-throws-cases (update_refresh_tokens service.orm theirs revoked) _ db h) [
        | inr (session, db1, e, h1) ↦ absurd (ground (arith, ap (λ p. p.0) h1))
        | inl e ↦
            rw (update_refresh_tokens-throws service.orm theirs revoked db db' e)
              (refuses (end_all user_id) x (sessions db.refresh_tokens), keyed)
      ]
