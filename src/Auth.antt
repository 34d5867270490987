-- ===== src/Auth.antt =====
-- src/auth/auth.service.ts: what the service is constructed with, and how it issues a session (an
-- access token and a refresh token). The random token of a call is an argument of it, `now` is
-- the time.
pub mod Refresh
pub mod Account
pub mod Sessions
use Prim.Native.Char.{code}
use mathlib.Core.Path.{◌≡◌}
use stellar_tip_api.Common.{
  ℕ, ◌+◌, ◌-◌, ◌*◌, Bool, true, false, ◌&&◌, String, ◌==◌, Option, none, some, if◌then◌else◌, leb,
  is_empty, or_text,
}
use stellar_tip_api.Http.{Result, ok, Action, pure, lift, ◌>>=◌, ◌>>◌}
use stellar_tip_api.Entities.{RefreshToken, UserRole, AuthMethod}
use stellar_tip_api.Database.{Orm, Database, insert_refresh_token}

-- The payload of an access token; `authMethod` is there or not.
pub record JwtPayload : Type 0 where
  pub sub : String
  pub role : UserRole
  pub auth_method : Option AuthMethod

pub record AuthService : Type 0 where
  pub orm : Orm
  -- `JWT_ACCESS_EXPIRATION`
  pub access_expiration_setting : Option String
  -- the date `refreshTokenExpiresInDays` days on, in the server's time zone
  pub refresh_expiry : ℕ → ℕ
  -- `jwtService.sign(payload, { expiresIn })`, at a time; it refuses an `expiresIn` it cannot read
  pub sign : ℕ → JwtPayload → String → Result String
  -- `bcrypt.hash(password, 10)`, with the salt that it draws, and `bcrypt.compare`
  pub hash : String → String → String
  pub compare : String → String → Bool
  pub compare_hash : (salt password : String) → compare password (hash salt password) ≡ true
  -- a bcrypt hash has 60 characters
  pub hash_set : (salt password : String) → (hash salt password == "") ≡ false
  -- `s.toLowerCase()`, `s.slice(-n)`
  pub to_lower_case : String → String
  pub last : ℕ → String → String

-- The part of an answer that every issue of tokens has.
pub record Session : Type 0 where
  pub access_token : String
  pub refresh_token : String
  pub expires_in : ℕ

-- the `switch` of `parseExpiresIn` on the unit
unfoldable pub with_unit : ℕ → String → ℕ
with_unit value unit =
    if unit == "s"
    then value
    else if unit == "m"
    then value * 60
    else if unit == "h"
    then value * 3600
    else if unit == "d"
    then value * 86400
    else 900

abbrev pub is_unit : String → Bool
is_unit unit =
    if unit == "s"
    then true
    else if unit == "m"
    then true
    else if unit == "h"
    then true
    else unit == "d"

abbrev pub is_digit : ℕ → Bool
is_digit c = leb 48 c && leb c 57

-- `/^(\d+)([smhd])$/` on a text, with the value of the digits read so far and whether there was one
unfoldable pub expires_in_from : ℕ → Bool → String → ℕ
unfolding with_unit
expires_in_from value seen String.[] = 900
expires_in_from value seen (String.◌∷◌ c rest) =
    let longer = expires_in_from (value * 10 + (code c - 48)) true rest in
    if is_digit (code c)
    then longer
    else if seen && is_unit (String.◌∷◌ c rest)
    then with_unit value (String.◌∷◌ c rest)
    else 900

unfoldable pub parse_expires_in : String → ℕ
unfolding expires_in_from
parse_expires_in expires_in = expires_in_from 0 false expires_in

module _ (service : AuthService) where
  abbrev pub access_token_expires_in : String
  access_token_expires_in = or_text service.access_expiration_setting "15m"

  unfoldable pub create_refresh_token : ℕ → String → String → Action Database String
  create_refresh_token now token user_id = do
    insert_refresh_token service.orm (record {
      user_id = user_id;
      token = token;
      expires_at = service.refresh_expiry now;
      is_revoked = false;
    })
    pure token

  -- signs the payload and stores a refresh token, as `login`, `signup`, `loginWithEmail` and
  -- `refreshToken` end
  unfoldable pub issue : ℕ → String → JwtPayload → Action Database Session
  unfolding create_refresh_token parse_expires_in
  issue now token payload = do
    access_token ← lift (service.sign now payload access_token_expires_in)
    refresh_token ← create_refresh_token now token payload.sub
    pure (record {
      access_token = access_token;
      refresh_token = refresh_token;
      expires_in = parse_expires_in access_token_expires_in;
    })
