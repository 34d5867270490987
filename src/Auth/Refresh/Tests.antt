-- ===== src/Auth/Refresh/Tests.antt =====
-- `refreshToken` of src/auth/auth.service.ts at concrete requests.
use stellar_tip_api.Common.{
  ◌+◌, false, String, ◌==◌, ◌≡◌, ◌≢◌, refl, sym, ap, ◌∙◌, ◌⊎◌, inl, inr, some, [], ◌∷◌, arith,
  eq_iff, eq_refl,
}
use stellar_tip_api.Http.{ok, throws, unauthorized, error}
use stellar_tip_api.Entities.{RefreshToken, User}
use stellar_tip_api.Database.{Database, set_where}
use stellar_tip_api.Fixtures.{mac-set, list_orm, empty_database, wallet_user}
use stellar_tip_api.Auth.{AuthService, Session}
use stellar_tip_api.Auth.Refresh.{revoked, check_refresh, refresh_token, revoke_user_refresh_tokens}
use stellar_tip_api.Auth.Refresh.Rotation.{IsSpendable}
use stellar_tip_api.Auth.Refresh.Spent.{
  IsRotated, HasUniqueTokens, refresh_rotates_token, spent_token,
}
use stellar_tip_api.Auth.Sessions.Refine.{IsFresh}
use stellar_tip_api.Auth.Refresh.Ended.{failed_refresh}
use stellar_tip_api.Auth.Refresh.Race.{TakesWrites, Runs, received, answered, raced_refresh}

abbrev service : AuthService
service = record {
  orm = list_orm;
  access_expiration_setting = some "1h";
  refresh_expiry = λ now. now + 100;
  sign = λ now payload expires_in. ok "jwt";
  hash = λ salt password. String.◌∷◌ "m" password;
  compare = λ password hashed. String.◌∷◌ "m" password == hashed;
  compare_hash = λ salt password. eq_refl (String.◌∷◌ "m" password);
  hash_set = λ salt password. mac-set password;
  to_lower_case = λ s. s;
  last = λ n s. s;
}

abbrev unsigned : AuthService
unsigned = record service { sign = λ now payload expires_in. throws (error "bad expiresIn") }

abbrev row_of : String → String → String → RefreshToken
row_of id user token = record {
  id = id;
  created_at = 0;
  columns = record { user_id = user; token = token; expires_at = 50; is_revoked = false };
}

abbrev ann : User
ann = wallet_user "u1" "GA"

abbrev stored : Database
stored = record empty_database {
  users = ann ∷ wallet_user "u2" "GB" ∷ [];
  refresh_tokens = row_of "r1" "u1" "t1" ∷ row_of "r2" "u2" "t2" ∷ [];
}

abbrev session : Session
session = record { access_token = "jwt"; refresh_token = "t3"; expires_in = 3600 }

abbrev after_first : Database
unfolding refresh_token
after_first = (refresh_token service 10 "t3" "t1" stored).1

refreshed : refresh_token service 10 "t3" "t1" stored ≡ (ok session, after_first)
unfolding refresh_token after_first
refreshed = refl

refresh_rotates_token_example :
    (row : RefreshToken) × (user : User) × IsSpendable service 10 "t1" stored row user
    × IsRotated service 10 "t3" stored after_first session row user
refresh_rotates_token_example =
    refresh_rotates_token service 10 "t3" "t1" stored after_first session refreshed

t1-ne-t2 : ◌≢◌ {A = String} "t1" "t2"
t1-ne-t2 = ground (arith, eq_iff "t1" "t2")

stored_unique : HasUniqueTokens stored
stored_unique x y (inl e) (inl f) h = rw (e, f) refl
stored_unique x y (inr (inl e)) (inr (inl f)) h = rw (e, f) refl
stored_unique x y (inl e) (inr (inl f)) h =
    absurd (t1-ne-t2 (sym (ap (λ r. r.columns.token) e) ∙ h ∙ ap (λ r. r.columns.token) f))
stored_unique x y (inr (inl e)) (inl f) h =
    absurd (t1-ne-t2 (sym (ap (λ r. r.columns.token) f) ∙ sym h ∙ ap (λ r. r.columns.token) e))
stored_unique x y (inl e) (inr (inr m)) h = elim m [ ]
stored_unique x y (inr (inl e)) (inr (inr m)) h = elim m [ ]
stored_unique x y (inr (inr m)) _ h = elim m [ ]

t3-ne-t1 : ◌≢◌ {A = String} "t3" "t1"
t3-ne-t1 = ground (arith, eq_iff "t3" "t1")

spent_token_example :
    refresh_token service 20 "t4" "t1" after_first
    ≡ (throws (unauthorized "Invalid refresh token"), after_first)
spent_token_example =
    spent_token service 10 20 "t3" "t4" "t1" stored after_first session stored_unique t3-ne-t1
      refreshed

abbrev after_failure : Database
unfolding refresh_token
after_failure = (refresh_token unsigned 10 "t3" "t1" stored).1

unrefreshed :
    refresh_token unsigned 10 "t3" "t1" stored ≡ (throws (error "bad expiresIn"), after_failure)
unfolding refresh_token after_failure
unrefreshed = refl

failed_refresh_example :
    (after_failure ≡ stored)
    ⊎ ((row : RefreshToken) × (user : User) × IsSpendable unsigned 10 "t1" stored row user
        × (after_failure ≡ record stored {
          refresh_tokens = set_where (λ r. r.id == row.id) revoked stored.refresh_tokens;
        }))
failed_refresh_example =
    failed_refresh unsigned 10 "t3" "t1" stored after_failure (error "bad expiresIn") unrefreshed

abbrev after_end : Database
unfolding revoke_user_refresh_tokens
after_end = (revoke_user_refresh_tokens service "u2" stored).1

ended : revoke_user_refresh_tokens service "u2" stored ≡ (ok tt, after_end)
unfolding revoke_user_refresh_tokens after_end
ended = refl

list-TakesWrites : TakesWrites "u1" list_orm.refresh_tokens
list-TakesWrites = record {
  inserts = λ c rows owner unused. (_, _, refl);
  updates = λ p rows. (set_where p revoked rows, refl);
}

checked : check_refresh service 10 "t1" stored ≡ (ok (row_of "r1" "u1" "t1", ann), stored)
unfolding check_refresh
checked = refl

unused_token :
    (token : String)
    → ◌≢◌ {A = String} "t1" token
    → ◌≢◌ {A = String} "t2" token
    → IsFresh token stored.refresh_tokens
unused_token token one two x (inl e) same = one (sym (ap (λ r. r.columns.token) e) ∙ same)
unused_token token one two x (inr (inl e)) same = two (sym (ap (λ r. r.columns.token) e) ∙ same)
unused_token token one two x (inr (inr m)) same = elim m [ ]

raced_refresh_example :
    (one two : Session) × (db' : Database) × (one.refresh_token ≡ "t3")
    × (two.refresh_token ≡ "t4")
    × Runs service 10 stored
        (received "t1" "t3")
        (received "t1" "t4")
        db'
        (answered one)
        (answered two)
raced_refresh_example =
    raced_refresh service 10 "t1" "t3" "t4" "jwt" (row_of "r1" "u1" "t1") ann stored
      list-TakesWrites
      (unused_token "t3" (ground (arith, eq_iff "t1" "t3")) (ground (arith, eq_iff "t2" "t3")))
      (unused_token "t4" (ground (arith, eq_iff "t1" "t4")) (ground (arith, eq_iff "t2" "t4")))
      (ground (arith, eq_iff "t3" "t4")) refl checked
