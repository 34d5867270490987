-- ===== src/Auth/Account/Tests.antt =====
-- The logins of src/auth at concrete requests.
use stellar_tip_api.Common.{
  ◌+◌, true, String, ◌==◌, ◌≡◌, refl, sym, ◌∙◌, inl, inr, none, some, [], ◌∷◌, eq_refl, column_is,
  trim,
}
use stellar_tip_api.Http.{ok}
use stellar_tip_api.Entities.{User, UserRole}
use stellar_tip_api.Database.{Database, Has}
use stellar_tip_api.Fixtures.{mac-set, list_orm, empty_database, wallet_user}
use stellar_tip_api.Auth.{
  AuthService, JwtPayload, Session, access_token_expires_in, parse_expires_in,
}
use stellar_tip_api.Auth.Account.{
  Profile, signup, email_session, login_with_email, login, login_stellar, validate_jwt,
}
use stellar_tip_api.Auth.Account.Logins.{
  signup_then_login, login_is_recognised, wallet_alone_logs_in,
}

abbrev service : AuthService
service = record {
  orm = list_orm;
  access_expiration_setting = none;
  refresh_expiry = λ now. now + 100;
  sign = λ now payload expires_in. ok "jwt";
  hash = λ salt password. String.◌∷◌ "m" password;
  compare = λ password hashed. String.◌∷◌ "m" password == hashed;
  compare_hash = λ salt password. eq_refl (String.◌∷◌ "m" password);
  hash_set = λ salt password. mac-set password;
  to_lower_case = λ s. s;
  last = λ n s. s;
}

quarter : parse_expires_in "15m" ≡ 900
unfolding parse_expires_in
quarter = refl

two_hours : parse_expires_in "2h" ≡ 7200
unfolding parse_expires_in
two_hours = refl

no_unit : parse_expires_in "30" ≡ 900
unfolding parse_expires_in
no_unit = refl

abbrev signed : Database
unfolding signup
signed = (signup service 10 "t1" "s" "a@b.c" "secret" "ann" none empty_database).1

abbrev answer : Session × Profile
answer = (
  record { access_token = "jwt"; refresh_token = "t1"; expires_in = 900 },
  record {
    id = "x";
    username = "ann";
    display_name = some "ann";
    email = some "a@b.c";
    wallet_address = none;
    auth_method = none;
    role = UserRole.user;
  },
)

signup_run :
    signup service 10 "t1" "s" "a@b.c" "secret" "ann" none empty_database ≡ (ok answer, signed)
unfolding signup signed
signup_run = refl

signup_then_login_example :
    (user : User) × (answer.1.id ≡ user.id)
    × (login_with_email service 20 "t2" "a@b.c" "secret" signed
        ≡ email_session service 20 "t2" user signed)
signup_then_login_example =
    signup_then_login service 10 20 "t1" "t2" "s" "a@b.c" "secret" "ann" none empty_database signed
      answer signup_run

abbrev logged_in : Database
unfolding login_with_email signed
logged_in = (login_with_email service 20 "t1" "a@b.c" "secret" signed).1

login_run : login_with_email service 20 "t1" "a@b.c" "secret" signed ≡ (ok answer, logged_in)
unfolding login_with_email logged_in signed
login_run = refl

one_user : (x y : User) → Has x signed.users → Has y signed.users → x.id ≡ y.id → x ≡ y
unfolding signed
one_user x y (inl e) (inl f) h = e ∙ sym f
one_user x y (inl e) (inr m) h = elim m [ ]
one_user x y (inr m) _ h = elim m [ ]

login_is_recognised_example :
    (payload : JwtPayload) × (user : User) × (column_is user.columns.email "a@b.c" ≡ true)
    × (answer.1.id ≡ user.id)
    × (service.sign 20 payload (access_token_expires_in service) ≡ ok answer.0.access_token)
    × (validate_jwt service payload logged_in ≡ (ok user, logged_in))
login_is_recognised_example =
    login_is_recognised service 20 "t1" "a@b.c" "secret" signed logged_in answer one_user login_run

abbrev wallet : String
wallet = "GAAAAAAAAAAAAAAAAAAAAAAAAAAAAAAAAAAAAAAAAAAAAAAAAAAAAWHF"

abbrev idle : User
idle = wallet_user "u1" wallet

abbrev with_wallet : Database
with_wallet = record empty_database { users = idle ∷ [] }

wallet_alone_logs_in_example :
    (user : User) × Has user with_wallet.users
    × (user.columns.wallet_address ≡ some (trim wallet))
    × (login_stellar service 10 "t1" (some wallet) with_wallet
        ≡ login service 10 "t1" user with_wallet)
unfolding trim
wallet_alone_logs_in_example =
    wallet_alone_logs_in service 10 "t1" wallet with_wallet idle (inl refl) refl refl refl
