-- ===== src/Auth/Account/Laws.antt =====
-- What the account endpoints of src/auth promise: `signup` and the login after it, who may log in,
-- and what a login leaves.
use stellar_tip_api.Common.{
  ℕ, Bool, true, false, String, ◌==◌, ◌≡◌, refl, sym, ap, ◌∙◌, Option, none, some, ◌∷◌, arith,
  column_is,
}
use stellar_tip_api.Http.{
  ok, bind-inv, lift-inv-state, require_some-inv, require-inv-state, pure-inv,
}
use stellar_tip_api.Entities.{User, UserColumns}
use stellar_tip_api.Database.{Database, Has}
use stellar_tip_api.Database.Laws.{insert_user-inv}
use stellar_tip_api.Auth.{AuthService, JwtPayload, Session, issue, access_token_expires_in}
use stellar_tip_api.Auth.Refresh.Rotation.{issue-inv}
use stellar_tip_api.Auth.Account.{
  Profile, is_null, validate_auth_method, save_user, email_user, email_session, signup,
  password_matches, login_with_email,
}

is_null-inv : {A : Type 0} (o : Option A) → is_null o ≡ true → o ≡ none
is_null-inv none h = refl
is_null-inv (some a) h = ground arith

module _ (service : AuthService) where
  save_user-inv :
      (c : UserColumns) (db db' : Database) (user : User)
      → save_user service c db ≡ (ok user, db')
      → (validate_auth_method c ≡ ok tt)
        × (user.columns ≡ c)
        × (db' ≡ record db { users = user ∷ db.users })
  unfolding save_user
  save_user-inv c db db' user h =
      let (checked, valid, h1) = lift-inv-state (validate_auth_method c) _ db h in
      let (columns, after, fresh) = insert_user-inv service.orm c db db' user h1 in
      (valid, columns, after)

  email_session-inv :
      (now : ℕ) (token : String) (user : User) (db db' : Database) (answer : Session × Profile)
      → email_session service now token user db ≡ (ok answer, db')
      → (db'.users ≡ db.users)
        × (answer.1.id ≡ user.id)
        × (answer.0.refresh_token ≡ token)
        × (service.sign now
              (record { sub = user.id; role = user.columns.role; auth_method = none })
              (access_token_expires_in service)
            ≡ ok answer.0.access_token)
  unfolding email_session
  email_session-inv now token user db db' answer h =
      let payload : JwtPayload = record {
        sub = user.id;
        role = user.columns.role;
        auth_method = none;
      } in
      let (session, db1, e, h1) = bind-inv (issue service now token payload) _ db h in
      let (row, columns, after, same, signed, fresh) =
        issue-inv service now token payload db db1 session e in
      let (made, rest) = pure-inv h1 in
      (
        ap (λ d. d.users) (rest ∙ after),
        ap (λ a. a.1.id) (sym made),
        ap (λ a. a.0.refresh_token) (sym made) ∙ same,
        signed ∙ ap (λ a. ok a.0.access_token) made,
      )

  -- An account that was made: the email and the name were no other user's, and it is one new row.
  pub record IsSignedUp (salt email password username : String) (display_name : Option String)
      (db db' : Database) (user : User) : Type 0 where
    pub email_free : (x : User) → Has x db.users → column_is x.columns.email email ≡ false
    pub name_free : (x : User) → Has x db.users → (x.columns.username == username) ≡ false
    pub columns : user.columns ≡ email_user service salt email password username display_name
    pub after : db'.users ≡ user ∷ db.users

  pub signed_up :
      (now : ℕ) (token salt email password username : String) (display_name : Option String)
      (db db' : Database) (answer : Session × Profile)
      → signup service now token salt email password username display_name db ≡ (ok answer, db')
      → (user : User) × IsSignedUp salt email password username display_name db db' user
        × (answer.1.id ≡ user.id)
  unfolding signup
  signed_up now token salt email password username display_name db db' answer h =
      let by_email : User → Bool = λ u. column_is u.columns.email email in
      let by_name : User → Bool = λ u. u.columns.username == username in
      let (no_email, h1) =
        require-inv-state (is_null (service.orm.users.find_one by_email db.users)) _ _ db h in
      let (no_name, h2) =
        require-inv-state (is_null (service.orm.users.find_one by_name db.users)) _ _ db h1 in
      let c = email_user service salt email password username display_name in
      let (user, db1, saved, h3) = bind-inv (save_user service c) _ db h2 in
      let (valid, columns, after) = save_user-inv c db db1 user saved in
      let (kept, id, handed_out, signs) = email_session-inv now token user db1 db' answer h3 in
      (
        user,
        record {
          email_free =
              λ x m. service.orm.users.find_one_none by_email db.users x (is_null-inv _ no_email) m;
          name_free =
              λ x m. service.orm.users.find_one_none by_name db.users x (is_null-inv _ no_name) m;
          columns = columns;
          after = kept ∙ ap (λ d. d.users) after;
        },
        id,
      )

  -- A login answers with the session of a registered user with that email and password who is
  -- active.
  pub login_with_email-inv :
      (now : ℕ) (token email password : String) (db db' : Database) (answer : Session × Profile)
      → login_with_email service now token email password db ≡ (ok answer, db')
      → (user : User) × Has user db.users
        × (column_is user.columns.email email ≡ true)
        × (password_matches service password user.columns.password ≡ true)
        × (user.columns.is_active ≡ true)
        × (answer.1.id ≡ user.id)
        × (db'.users ≡ db.users)
        × (service.sign now
              (record { sub = user.id; role = user.columns.role; auth_method = none })
              (access_token_expires_in service)
            ≡ ok answer.0.access_token)
  unfolding login_with_email
  login_with_email-inv now token email password db db' answer h =
      let by_email : User → Bool = λ u. column_is u.columns.email email in
      let (user, found, h1) =
        require_some-inv (service.orm.users.find_one by_email db.users) _ _ db h in
      let (listed, has_email) = service.orm.users.find_one_some by_email db.users user found in
      let (matches, h2) =
        require-inv-state (password_matches service password user.columns.password) _ _ db h1 in
      let (active, h3) = require-inv-state user.columns.is_active _ _ db h2 in
      let (kept, id, handed_out, signs) = email_session-inv now token user db db' answer h3 in
      (user, listed, has_email, matches, active, id, kept, signs)
