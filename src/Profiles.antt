-- ===== src/Profiles.antt =====
-- The updates of src/profiles/profiles.service.ts: `updateProfile`, `updateWalletAddress` and
-- `updateSocialLinks`.
pub mod Wallets
pub mod Tipping
pub mod Avatar
mod Tests
use Prim.Native.Char.{code}
use Prim.Native.String
use stellar_tip_api.Common.{
  ℕ, Bool, true, false, not, ◌&&◌, ◌||◌, String, ◌==◌, Option, none, some, if◌then◌else◌, eqb,
  truthy, non_empty, or_text, column_is,
}
use stellar_tip_api.Http.{
  Result, ok, throws, Action, pure, lift, not_found, conflict, bad_request, and_then, require,
  require_some, ◌>>=◌, ◌>>◌,
}
use stellar_tip_api.Entities.{User, UserColumns, SocialLinks}
use stellar_tip_api.Database.{Orm, Database, find_user, update_user}
use stellar_tip_api.Auth.Account.{validate_auth_method}

-- `CreateProfileDto`
pub record ProfileUpdate : Type 0 where
  pub display_name : Option String
  pub bio : Option String
  pub avatar_url : Option String

-- a text that replaces the old one where it is given
abbrev pub given_or : Option String → Option String → Option String
given_or none old = old
given_or (some s) old = some s

-- a text that replaces the old one where it is given and not empty
abbrev pub set_or : Option String → Option String → Option String
set_or new old = if truthy new then new else old

-- `/^https:\/\//.test(s)`
unfoldable pub starts_with : String → String → Bool
starts_with String.[] s = true
starts_with (String.◌∷◌ c prefix) String.[] = false
starts_with (String.◌∷◌ c prefix) (String.◌∷◌ d s) = eqb (code c) (code d) && starts_with prefix s

unfoldable pub check_link : String → Option String → Result (Unit {0})
unfolding starts_with
check_link platform link =
    if truthy link && not (starts_with "https://" (or_text link ""))
    then throws (
        bad_request
          (String.◌++◌ "Invalid " (String.◌++◌ platform " URL: must start with https://")))
    else ok tt

unfoldable pub check_links : SocialLinks → Result (Unit {0})
unfolding check_link
check_links links = and_then (check_link "twitter" links.twitter) λ _.
    and_then (check_link "github" links.github)
      λ _. and_then (check_link "youtube" links.youtube) λ _. check_link "website" links.website

-- no other account than the user's own was found
abbrev pub is_own : String → Option User → Bool
is_own user_id none = true
is_own user_id (some existing) = existing.id == user_id

module _ (orm : Orm) where
  -- `usersRepository.save` of a user that was read: the hook runs before the update
  unfoldable pub save_read_user : User → Action Database User
  save_read_user user = do lift (validate_auth_method user.columns); update_user orm user

  unfoldable pub update_profile : String → ProfileUpdate → Action Database User
  unfolding save_read_user
  update_profile user_id update = do
    found ← find_user orm (λ u. u.id == user_id)
    user ← require_some found (not_found "User not found")
    save_read_user (record user {
      columns = record (user.columns) {
        display_name = set_or update.display_name user.columns.display_name;
        bio = given_or update.bio user.columns.bio;
        avatar_url = given_or update.avatar_url user.columns.avatar_url;
      };
    })

  -- the user with the wallet
  abbrev pub with_wallet : String → User → User
  with_wallet wallet user = record user {
    columns = record (user.columns) { wallet_address = some wallet };
  }

  unfoldable pub update_wallet_address : String → String → Action Database User
  unfolding save_read_user
  update_wallet_address user_id wallet_address = do
    existing ← find_user orm (λ u. column_is u.columns.wallet_address wallet_address)
    require (is_own user_id existing) (conflict "Wallet address already linked to another account")
    found ← find_user orm (λ u. u.id == user_id)
    user ← require_some found (not_found "User not found")
    save_read_user (with_wallet wallet_address user)

  unfoldable pub update_social_links : String → SocialLinks → Action Database User
  unfolding check_links save_read_user
  update_social_links user_id links = do
    found ← find_user orm (λ u. u.id == user_id)
    user ← require_some found (not_found "User not found")
    lift (check_links links)
    save_read_user (record user { columns = record (user.columns) { social_links = some links } })
