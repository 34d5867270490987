-- ===== src/Auth/Refresh.antt =====
-- `refreshToken` and `revokeUserRefreshTokens` of src/auth/auth.service.ts. `refreshToken` reads
-- the token and then revokes it, with nothing that holds other requests off in between: the two
-- parts are two steps here, which `refresh_token` takes one after the other.
pub mod Rotation
pub mod Spent
pub mod Race
pub mod Ended
mod Tests
use stellar_tip_api.Common.{ℕ, Bool, true, false, not, ◌&&◌, String, ◌==◌, Option, none, some, ltb}
use stellar_tip_api.Http.{
  Action, pure, throw, unauthorized, failure, require, require_some, ◌>>=◌, ◌>>◌,
}
use stellar_tip_api.Entities.{RefreshToken, RefreshTokenColumns, User}
use stellar_tip_api.Database.{Database, find_refresh_token, find_user, update_refresh_tokens}
use stellar_tip_api.Auth.{AuthService, JwtPayload, Session, issue}

abbrev pub revoked : RefreshTokenColumns → RefreshTokenColumns
revoked c = record c { is_revoked = true }

module _ (service : AuthService) where
  -- `{ token, isRevoked: false }`
  abbrev pub usable : String → RefreshToken → Bool
  usable token row = row.columns.token == token && not row.columns.is_revoked

  -- The tests on the token and its user. A token whose user is gone has a null `user`.
  unfoldable pub check_refresh : ℕ → String → Action Database (RefreshToken × User)
  check_refresh now token = do
    found ← find_refresh_token service.orm (usable token)
    row ← require_some found (unauthorized "Invalid refresh token")
    joined ← find_user service.orm (λ u. u.id == row.columns.user_id)
    require (not (ltb row.columns.expires_at now)) (unauthorized "Refresh token has expired")
    user ← require_some joined failure
    require user.columns.is_active (unauthorized "Account is deactivated")
    pure (row, user)

  -- Revokes the token that was read, and issues the next.
  unfoldable pub rotate : ℕ → String → RefreshToken → User → Action Database Session
  unfolding issue
  rotate now new_token row user = do
    update_refresh_tokens service.orm (λ r. r.id == row.id) revoked
    issue service now new_token
        (record { sub = user.id; role = user.columns.role; auth_method = none })

  unfoldable pub refresh_token : ℕ → String → String → Action Database Session
  unfolding check_refresh rotate
  refresh_token now new_token token = do
    checked ← check_refresh now token
    rotate now new_token checked.0 checked.1

  unfoldable pub revoke_user_refresh_tokens : String → Action Database (Unit {0})
  revoke_user_refresh_tokens user_id =
      update_refresh_tokens service.orm
        (λ r. r.columns.user_id == user_id && not r.columns.is_revoked) revoked
