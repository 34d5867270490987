-- ===== src/Auth/Account.antt =====
-- The accounts of src/auth/auth.service.ts: `validateStellarUser`, `login`, `signup` and
-- `loginWithEmail`, the hook `validateAuthMethod` of src/entities/user.entity.ts, the endpoint
-- `loginStellar` of src/auth/auth.controller.ts, and `validate` of src/auth/strategies.
pub mod Laws
pub mod Logins
mod Tests
use Prim.Native.Char.{code}
use Prim.Native.String
use stellar_tip_api.Common.{
  ℕ, ◌+◌, Bool, true, false, not, ◌&&◌, ◌||◌, String, ◌==◌, Option, none, some, if◌then◌else◌, leb,
  ltb, eqb, is_empty, truthy, or_text, column_is, trim,
}
use stellar_tip_api.Http.{
  Result, ok, throws, Action, pure, throw, lift, bad_request, unauthorized, conflict, error,
  require, require_some, ◌>>=◌, ◌>>◌,
}
use stellar_tip_api.Entities.{User, UserColumns, AuthMethod, UserRole}
use stellar_tip_api.Database.{Database, find_user, insert_user}
use stellar_tip_api.Auth.{AuthService, JwtPayload, Session, issue}

-- `s.length`, in UTF-16 units
abbrev pub utf16_length : String → ℕ
utf16_length String.[] = 0
utf16_length (String.◌∷◌ c s) = (if ltb (code c) 0x10000 then 1 else 2) + utf16_length s

-- `s.startsWith('G')`
abbrev pub starts_with_g : String → Bool
starts_with_g String.[] = false
starts_with_g (String.◌∷◌ c s) = eqb (code c) 71

abbrev pub is_null : {A : Type 0} → Option A → Bool
is_null none = true
is_null (some a) = false

-- the hook that runs before an insert
unfoldable pub validate_auth_method : UserColumns → Result (Unit {0})
validate_auth_method c = elim (c.auth_method) [
  | AuthMethod.email ↦
      if truthy c.email then ok tt else throws (error "Email is required for email authentication")
  | AuthMethod.stellar ↦
      if truthy c.wallet_address
      then ok tt
      else throws (error "Wallet address is required for Stellar authentication")
]

-- The `user` of the answer: its email where it came by one, or its wallet.
pub record Profile : Type 0 where
  pub id : String
  pub username : String
  pub display_name : Option String
  pub email : Option String
  pub wallet_address : Option String
  pub auth_method : Option AuthMethod
  pub role : UserRole

module _ (service : AuthService) where
  -- `usersRepository.save` of a new user
  unfoldable pub save_user : UserColumns → Action Database User
  unfolding validate_auth_method
  save_user c = do lift (validate_auth_method c); insert_user service.orm c

  abbrev pub new_user : UserColumns
  new_user = record {
    username = "";
    display_name = none;
    bio = none;
    avatar_url = none;
    social_links = none;
    email = none;
    password = none;
    wallet_address = none;
    auth_method = AuthMethod.email;
    role = UserRole.user;
    is_active = true;
  }

  unfoldable pub stellar_user : String → UserColumns
  stellar_user wallet = record new_user {
    username = String.◌++◌ "stellar_" (service.to_lower_case (service.last 8 wallet));
    display_name = some (String.◌++◌ "Stellar User " (service.last 4 wallet));
    wallet_address = some wallet;
    auth_method = AuthMethod.stellar;
  }

  unfoldable pub create_unless_found : String → Option User → Action Database User
  unfolding stellar_user save_user
  create_unless_found wallet (some user) = pure user
  create_unless_found wallet none = save_user (stellar_user wallet)

  unfoldable pub validate_stellar_user : String → Action Database User
  unfolding create_unless_found
  validate_stellar_user wallet = do
    require (starts_with_g wallet && eqb (utf16_length wallet) 56)
        (unauthorized "Invalid Stellar wallet address")
    found ← find_user service.orm (λ u. column_is u.columns.wallet_address wallet)
    create_unless_found wallet found

  unfoldable pub login : ℕ → String → User → Action Database (Session × Profile)
  unfolding issue
  login now token user = do
    session ← issue service now token (record {
      sub = user.id;
      role = user.columns.role;
      auth_method = some user.columns.auth_method;
    })
    pure (
      session,
      record {
        id = user.id;
        username = user.columns.username;
        display_name = user.columns.display_name;
        email = none;
        wallet_address = user.columns.wallet_address;
        auth_method = some user.columns.auth_method;
        role = user.columns.role;
      },
    )

  -- the endpoint; a body with no text in `walletAddress` is `none`
  unfoldable pub login_stellar : ℕ → String → Option String → Action Database (Session × Profile)
  unfolding validate_stellar_user login
  login_stellar now token wallet_address =
      if not (truthy wallet_address) then throw (bad_request "walletAddress is required") else do
        require
            (starts_with_g (trim (or_text wallet_address ""))
              && leb 56 (utf16_length (trim (or_text wallet_address ""))))
            (bad_request "Invalid Stellar wallet address format")
        user ← validate_stellar_user (trim (or_text wallet_address ""))
        login now token user

  -- the answer of `signup` and `loginWithEmail`
  unfoldable pub email_session : ℕ → String → User → Action Database (Session × Profile)
  unfolding issue
  email_session now token user = do
    session ←
        issue service now token
          (record { sub = user.id; role = user.columns.role; auth_method = none })
    pure (
      session,
      record {
        id = user.id;
        username = user.columns.username;
        display_name = user.columns.display_name;
        email = user.columns.email;
        wallet_address = none;
        auth_method = none;
        role = user.columns.role;
      },
    )

  unfoldable pub email_user : String → String → String → String → Option String → UserColumns
  email_user salt email password username display_name = record new_user {
    email = some email;
    password = some (service.hash salt password);
    username = username;
    display_name = some (or_text display_name username);
  }

  unfoldable pub signup :
      ℕ
      → String
      → String
      → String
      → String
      → String
      → Option String
      → Action Database (Session × Profile)
  unfolding email_user save_user email_session
  signup now token salt email password username display_name = do
    existing_email ← find_user service.orm (λ u. column_is u.columns.email email)
    require (is_null existing_email) (conflict "Email already in use")
    existing_username ← find_user service.orm (λ u. u.columns.username == username)
    require (is_null existing_username) (conflict "Username already taken")
    user ← save_user (email_user salt email password username display_name)
    email_session now token user

  abbrev pub password_matches : String → Option String → Bool
  password_matches password none = false
  password_matches password (some hashed) = not (is_empty hashed) && service.compare password hashed

  unfoldable pub login_with_email :
      ℕ → String → String → String → Action Database (Session × Profile)
  unfolding email_session
  login_with_email now token email password = do
    found ← find_user service.orm (λ u. column_is u.columns.email email)
    user ← require_some found (unauthorized "Invalid credentials")
    require (password_matches password user.columns.password) (unauthorized "Invalid credentials")
    require user.columns.is_active (unauthorized "Account is deactivated")
    email_session now token user

  -- `validate` of the JWT strategy, on the payload of a token that passport verified
  unfoldable pub validate_jwt : JwtPayload → Action Database User
  validate_jwt payload = do
    found ← find_user service.orm (λ u. u.id == payload.sub)
    user ← require_some found (unauthorized "Unauthorized")
    require user.columns.is_active (unauthorized "Unauthorized")
    pure user
