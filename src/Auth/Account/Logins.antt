-- ===== src/Auth/Account/Logins.antt =====
-- Logins of src/auth/auth.service.ts and src/auth/auth.controller.ts: after a sign-up, by the
-- holder of an access token, and with a wallet's address.
use stellar_tip_api.Common.{
  ℕ, Bool, true, false, String, ◌==◌, ◌≡◌, refl, ap, ◌∙◌, inl, inr, Option, none, some, arith,
  eq_iff, eq_refl, eqb_iff, Option-cases, Bool-cases, eqb, leb, column_is, is_empty, trim, trim-set,
  column_is-some,
}
use stellar_tip_api.Http.{ok}
use stellar_tip_api.Entities.{User}
use stellar_tip_api.Database.{Database, Has}
use stellar_tip_api.Auth.{AuthService, JwtPayload, Session, access_token_expires_in}
use stellar_tip_api.Auth.Account.{
  Profile, starts_with_g, utf16_length, email_user, email_session, signup, password_matches,
  login_with_email, login, login_stellar, validate_stellar_user, create_unless_found, validate_jwt,
}
use stellar_tip_api.Auth.Account.Laws.{IsSignedUp, signed_up, login_with_email-inv}

wallet_given : (wallet : String) → utf16_length (trim wallet) ≡ 56 → is_empty wallet ≡ false
wallet_given wallet long = elim (Bool-cases (is_empty (trim wallet))) [
  | inl e ↦
      let none_left : utf16_length (trim wallet) ≡ 0 = rw ((eq_iff (trim wallet) "").0 e) refl in
      absurd (omega (arith, long, none_left))
  | inr f ↦ trim-set wallet (trim wallet) refl f
]

module _ (service : AuthService) where
  -- the user that the new account's email finds
  found_is_new :
      (salt email password username : String) (display_name : Option String) (db db' : Database)
      (user found : User)
      → IsSignedUp service salt email password username display_name db db' user
      → service.orm.users.find_one (λ u. column_is u.columns.email email) db'.users ≡ some found
      → found ≡ user
  found_is_new salt email password username display_name db db' user found made h =
      let by_email : User → Bool = λ u. column_is u.columns.email email in
      let (listed, has_email) = service.orm.users.find_one_some by_email db'.users found h in
      elim (rw made.after at listed) [
        | inl same ↦ same
        | inr old ↦ let free = made.email_free found old in absurd (ground (arith, free, has_email))
      ]

  new_user_is_found :
      (salt email password username : String) (display_name : Option String) (db db' : Database)
      (user : User)
      → IsSignedUp service salt email password username display_name db db' user
      → service.orm.users.find_one (λ u. column_is u.columns.email email) db'.users ≡ some user
  unfolding email_user
  new_user_is_found salt email password username display_name db db' user made =
      let by_email : User → Bool = λ u. column_is u.columns.email email in
      elim (Option-cases (service.orm.users.find_one by_email db'.users)) [
        | inl absent ↦
            let here : Has user db'.users = rw made.after (inl refl) in
            let missed = service.orm.users.find_one_none by_email db'.users user absent here in
            let has_email : column_is user.columns.email email ≡ true =
              rw made.columns (eq_refl email) in
            absurd (ground (arith, missed, has_email))
        | inr (found, h) ↦
            h
            ∙ ap some
                (found_is_new salt email password username display_name db db' user found made h)
      ]

  new_password_matches :
      (salt email password username : String) (display_name : Option String) (db db' : Database)
      (user : User)
      → IsSignedUp service salt email password username display_name db db' user
      → password_matches service password user.columns.password ≡ true
  unfolding email_user
  new_password_matches salt email password username display_name db db' user made =
      rw made.columns (rw (service.hash_set salt password) (service.compare_hash salt password))

  -- Whoever signed up logs in with the same email and password: the login passes its tests and
  -- goes on to issue a session for the account that was made.
  pub signup_then_login :
      (now later : ℕ) (token next salt email password username : String)
      (display_name : Option String) (db db' : Database) (answer : Session × Profile)
      → signup service now token salt email password username display_name db ≡ (ok answer, db')
      → (user : User) × (answer.1.id ≡ user.id)
        × (login_with_email service later next email password db'
            ≡ email_session service later next user db')
  unfolding login_with_email email_user
  signup_then_login now later token next salt email password username display_name db db' answer h =
      let (user, made, id) =
        signed_up service now token salt email password username display_name db db' answer h in
      let found = new_user_is_found salt email password username display_name db db' user made in
      let matches =
        new_password_matches salt email password username display_name db db' user made in
      let active : user.columns.is_active ≡ true = ap (λ c. c.is_active) made.columns in
      (user, id, rw (found, matches, active) refl)

  -- A session that a login by email issued is recognised: a payload whose signature is its access
  -- token lets the user with that email in, on tables where an id is one user's.
  pub login_is_recognised :
      (now : ℕ) (token email password : String) (db db' : Database) (answer : Session × Profile)
      → ((x y : User) → Has x db.users → Has y db.users → x.id ≡ y.id → x ≡ y)
      → login_with_email service now token email password db ≡ (ok answer, db')
      → (payload : JwtPayload) × (user : User) × (column_is user.columns.email email ≡ true)
        × (answer.1.id ≡ user.id)
        × (service.sign now payload (access_token_expires_in service) ≡ ok answer.0.access_token)
        × (validate_jwt service payload db' ≡ (ok user, db'))
  unfolding validate_jwt
  login_is_recognised now token email password db db' answer unique h =
      let (user, listed, has_email, matches, active, id, kept, signs) =
        login_with_email-inv service now token email password db db' answer h in
      let by_id : User → Bool = λ u. u.id == user.id in
      let here : Has user db'.users = rw kept listed in
      elim (Option-cases (service.orm.users.find_one by_id db'.users)) [
        | inl absent ↦
            let missed = service.orm.users.find_one_none by_id db'.users user absent here in
            absurd (ground (arith, missed, eq_refl user.id))
        | inr (found, e) ↦
            let (m, same_id) = service.orm.users.find_one_some by_id db'.users found e in
            let same : found ≡ user =
              unique found user (rw kept at m) listed ((eq_iff found.id user.id).0 same_id) in
            (
              record { sub = user.id; role = user.columns.role; auth_method = none },
              user,
              has_email,
              id,
              signs,
              rw (e, same, active) refl,
            )
      ]

  -- A request that names a registered wallet's address logs in as that wallet's user, active or
  -- not: no signature and no nonce is looked at.
  pub wallet_alone_logs_in :
      (now : ℕ) (token wallet : String) (db : Database) (owner : User)
      → Has owner db.users
      → owner.columns.wallet_address ≡ some (trim wallet)
      → starts_with_g (trim wallet) ≡ true
      → utf16_length (trim wallet) ≡ 56
      → (user : User) × Has user db.users
        × (user.columns.wallet_address ≡ some (trim wallet))
        × (login_stellar service now token (some wallet) db ≡ login service now token user db)
  unfolding login_stellar validate_stellar_user create_unless_found
  wallet_alone_logs_in now token wallet db owner listed owns starts long =
      let has_wallet : User → Bool = λ u. column_is u.columns.wallet_address (trim wallet) in
      let given = wallet_given wallet long in
      let exact : eqb (utf16_length (trim wallet)) 56 ≡ true = (eqb_iff _ _).1 long in
      let enough : leb 56 (utf16_length (trim wallet)) ≡ true = rw long refl in
      elim (Option-cases (service.orm.users.find_one has_wallet db.users)) [
        | inl absent ↦
            let missed = service.orm.users.find_one_none has_wallet db.users owner absent listed in
            absurd (ground (arith, missed, owns, eq_refl (trim wallet)))
        | inr (found, e) ↦
            let (m, has) = service.orm.users.find_one_some has_wallet db.users found e in
            (
              found,
              m,
              column_is-some found.columns.wallet_address (trim wallet) has,
              rw (given, starts, enough, exact, e) refl,
            )
      ]
