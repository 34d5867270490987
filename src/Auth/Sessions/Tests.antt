-- ===== src/Auth/Sessions/Tests.antt =====
-- A login, a refresh, the same refresh again and a logout (src/auth/auth.service.ts), from empty
-- tables.
use stellar_tip_api.Common.{
  Bool, true, not, ◌&&◌, none, ◌+◌, String, ◌==◌, ◌≡◌, refl, some, List, [], ◌∷◌, eq_refl, eq_iff,
  arith, inl, inr, ap, sym, ◌∙◌,
}
use stellar_tip_api.Http.{ok, throws, unauthorized}
use stellar_tip_api.Entities.{RefreshToken, User}
use stellar_tip_api.Database.{Database, Has, set_where}
use stellar_tip_api.Fixtures.{mac-set, list_orm, empty_database, wallet_user}
use stellar_tip_api.Auth.{AuthService, Session}
use stellar_tip_api.Auth.Refresh.{revoked, refresh_token, revoke_user_refresh_tokens}
use stellar_tip_api.Auth.Account.{login}
use stellar_tip_api.Auth.Sessions.Refine.{IsKeyed, IsFresh}
use stellar_tip_api.Auth.Refresh.Race.{TakesWrites}
use stellar_tip_api.Auth.Sessions.Renewal.{open_session_is_renewed}
use stellar_tip_api.Auth.Sessions.{
  Open, sessions, Call, log_in, refresh, end_all, serve, serve_all, AllowsAll,
}
use stellar_tip_api.Auth.Sessions.Runs.{calls_refine_sessions, AllFresh}

abbrev service : AuthService
service = record {
  orm = list_orm;
  access_expiration_setting = some "1h";
  refresh_expiry = λ now. now + 100;
  sign = λ now payload expires_in. ok "jwt";
  hash = λ salt password. String.◌∷◌ "m" password;
  compare = λ password hashed. String.◌∷◌ "m" password == hashed;
  compare_hash = λ salt password. eq_refl (String.◌∷◌ "m" password);
  hash_set = λ salt password. mac-set password;
  to_lower_case = λ s. s;
  last = λ n s. s;
}

abbrev ann : User
ann = wallet_user "u1" "GA"

abbrev start : Database
start = record empty_database { users = ann ∷ [] }

abbrev calls : List Call
calls = log_in 1 "t1" ann ∷ refresh 10 "t2" "t1" ∷ refresh 11 "t3" "t1" ∷ end_all "u1" ∷ []

unused : String → List RefreshToken → Bool
unused token [] = true
unused token (row ∷ rows) = let rest = unused token rows in not (row.columns.token == token) && rest

unused-IsFresh :
    (token : String) (rows : List RefreshToken) → unused token rows ≡ true → IsFresh token rows
unfolding unused
unused-IsFresh token [] h x m same = elim m [ ]
unused-IsFresh token (row ∷ rows) h x (inl e) same =
    ground (arith, h, same, ap (λ r. r.columns.token) e, eq_iff row.columns.token token)
unused-IsFresh token (row ∷ rows) h x (inr m) same =
    unused-IsFresh token rows (ground (arith, h)) x m same

abbrev logged_in : Database
logged_in = (serve service (log_in 1 "t1" ann) start).1

abbrev refreshed : Database
refreshed = (serve service (refresh 10 "t2" "t1") logged_in).1

calls_fresh : AllFresh service calls start
unfolding unused serve set_where refresh_token login
calls_fresh = (
  unused-IsFresh "t1" start.refresh_tokens refl,
  (
    unused-IsFresh "t2" logged_in.refresh_tokens refl,
    (unused-IsFresh "t3" refreshed.refresh_tokens refl, (tt, tt)),
  ),
)

one_user : (x y : User) → Has x logged_in.users → Has y logged_in.users → x.id ≡ y.id → x ≡ y
unfolding serve login
one_user x y (inl e) (inl f) same = e ∙ sym f
one_user x y (inr m) n same = elim m [ ]
one_user x y (inl e) (inr n) same = elim n [ ]

one_ann : Has ann logged_in.users
unfolding serve login
one_ann = inl refl

start-IsKeyed : IsKeyed start.refresh_tokens
start-IsKeyed x y m n same = elim m [ ]

calls_refine_sessions_example :
    AllowsAll service calls
      (serve_all service calls start).0
      []
      (sessions (serve_all service calls start).1.refresh_tokens)
unfolding sessions
calls_refine_sessions_example = calls_refine_sessions service calls start start-IsKeyed calls_fresh

list-TakesWrites : TakesWrites "u1" list_orm.refresh_tokens
list-TakesWrites = record {
  inserts = λ c rows owner unused. (_, _, refl);
  updates = λ p rows. (set_where p revoked rows, refl);
}

abbrev ann_is_open : Open
ann_is_open = record { token = "t1"; user_id = "u1"; deadline = 101 }

one_session : Has ann_is_open (sessions logged_in.refresh_tokens)
unfolding sessions serve login
one_session = inl refl

logged_in-IsKeyed : IsKeyed logged_in.refresh_tokens
unfolding serve login
logged_in-IsKeyed x y (inl e) (inl f) same = e ∙ sym f
logged_in-IsKeyed x y (inr m) n same = elim m [ ]
logged_in-IsKeyed x y (inl e) (inr n) same = elim n [ ]

open_session_is_renewed_example :
    (session : Session) × (db' : Database) × (refresh_token service 50 "t9" "t1" logged_in
      ≡ (ok session, db'))
    × (session.refresh_token ≡ "t9")
unfolding serve login unused
open_session_is_renewed_example =
    open_session_is_renewed service 50 "t9" "jwt" ann_is_open ann logged_in logged_in-IsKeyed
      one_user list-TakesWrites (unused-IsFresh "t9" logged_in.refresh_tokens refl) one_session
      (omega arith) one_ann refl refl refl

-- The second refresh with the token throws, and nothing is open at the end.
ends_closed : sessions (serve_all service calls start).1.refresh_tokens ≡ []
unfolding serve_all serve sessions revoke_user_refresh_tokens set_where refresh_token login
ends_closed = refl

told :
    (session : Session) (next_session : Session)
    → session ≡ record { access_token = "jwt"; refresh_token = "t1"; expires_in = 3600 }
    → next_session ≡ record session { refresh_token = "t2" }
    → (serve_all service calls start).0
      ≡ ok (some session)
        ∷ ok (some next_session)
        ∷ throws (unauthorized "Invalid refresh token")
        ∷ ok none
        ∷ []
unfolding serve_all serve sessions revoke_user_refresh_tokens set_where refresh_token login
told session next_session a b = rw (b, a) refl
