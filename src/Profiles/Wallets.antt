-- ===== src/Profiles/Wallets.antt =====
-- The wallets of the accounts under `updateWalletAddress` of src/profiles/profiles.service.ts.
use stellar_tip_api.Common.{Bool, true, String, ◌==◌, ◌≡◌, sym, ap, ◌∙◌, some, eq_iff, column_is}
use stellar_tip_api.Http.{ok, lift-inv-state, require-inv-state, require_some-inv}
use stellar_tip_api.Entities.{User}
use stellar_tip_api.Database.{Database, Has, replace}
use stellar_tip_api.Database.Laws.{update_user-inv}
use stellar_tip_api.Auth.Account.{validate_auth_method}
use stellar_tip_api.Profiles.{is_own, save_read_user, with_wallet, update_wallet_address}
use stellar_tip_api.Database.{Orm}

-- A wallet is one account's.
abbrev pub HasUniqueWallets : Database → Type 0
HasUniqueWallets db =
    (x y : User) (wallet : String)
    → Has x db.users
    → Has y db.users
    → x.columns.wallet_address ≡ some wallet
    → y.columns.wallet_address ≡ some wallet
    → x.id ≡ y.id

module _ (orm : Orm) where
  -- what an update that answers found and left
  pub record IsRelinked (user_id wallet : String) (db db' : Database) (saved : User) : Type 0 where
    pub user : User
    pub listed : Has user db.users
    pub same_id : user.id ≡ user_id
    pub own :
        is_own user_id
          (orm.users.find_one (λ u. column_is u.columns.wallet_address wallet) db.users)
        ≡ true
    pub saved_is : saved ≡ with_wallet orm wallet user
    pub after : db' ≡ record db { users = replace saved db.users }

  pub update_wallet_address-inv :
      (user_id wallet : String) (db db' : Database) (saved : User)
      → update_wallet_address orm user_id wallet db ≡ (ok saved, db')
      → IsRelinked user_id wallet db db' saved
  unfolding update_wallet_address save_read_user
  update_wallet_address-inv user_id wallet db db' saved h =
      let by_wallet : User → Bool = λ u. column_is u.columns.wallet_address wallet in
      let by_id : User → Bool = λ u. u.id == user_id in
      let (own, h1) =
        require-inv-state (is_own user_id (orm.users.find_one by_wallet db.users)) _ _ db h in
      let (user, found, h2) = require_some-inv (orm.users.find_one by_id db.users) _ _ db h1 in
      let (listed, same) = orm.users.find_one_some by_id db.users user found in
      let (valid, e, h3) =
        lift-inv-state (validate_auth_method (with_wallet orm wallet user).columns) _ db h2 in
      let (saved_is, after) = update_user-inv orm (with_wallet orm wallet user) saved db db' h3 in
      record {
        user = user;
        listed = listed;
        same_id = (eq_iff user.id user_id).0 same;
        own = own;
        saved_is = saved_is;
        after = after ∙ ap (λ u. record db { users = replace u db.users }) (sym saved_is);
      }
