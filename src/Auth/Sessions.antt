-- ===== src/Auth/Sessions.antt =====
-- What src/auth/auth.service.ts promises of its refresh tokens, without the table: the sessions
-- that are open, and what a call may do to them.
pub mod Refine
pub mod Rotations
pub mod Openings
pub mod Runs
pub mod Renewal
mod Tests
use stellar_tip_api.Common.{
  ℕ, Bool, true, false, String, ◌==◌, ◌≡◌, Option, none, some, List, [], ◌∷◌, if◌then◌else◌, ◌≤◌,
}
use stellar_tip_api.Http.{Result, ok, throws, Exception, Action, pure, ◌>>=◌, ◌>>◌}
use stellar_tip_api.Entities.{RefreshToken, User}
use stellar_tip_api.Database.{Database, Has}
use stellar_tip_api.Auth.{AuthService, Session}
use stellar_tip_api.Auth.Refresh.{refresh_token, revoke_user_refresh_tokens}
use stellar_tip_api.Auth.Account.{login, login_with_email}

-- A session that is open: its token, whose it is, and when the token expires.
pub record Open : Type 0 where
  pub token : String
  pub user_id : String
  pub deadline : ℕ

abbrev pub has_token : String → Open → Bool
has_token token o = o.token == token

abbrev pub is_of : String → Open → Bool
is_of user_id o = o.user_id == user_id

pub without : (Open → Bool) → List Open → List Open
without p [] = []
without p (o ∷ os) = let rest = without p os in if p o then rest else o ∷ rest

-- The sessions that a table of refresh tokens stands for.
abbrev pub opened : RefreshToken → Open
opened row = record {
  token = row.columns.token;
  user_id = row.columns.user_id;
  deadline = row.columns.expires_at;
}

pub sessions : List RefreshToken → List Open
sessions [] = []
sessions (row ∷ rows) =
    let rest = sessions rows in if row.columns.is_revoked then rest else opened row ∷ rest

-- The calls that open, carry on and end sessions, with the random token of each.
pub data Call : Type 0 where
  log_in : ℕ → String → User → Call
  log_in_by_email : ℕ → String → String → String → Call
  refresh : ℕ → String → String → Call
  end_all : String → Call

module _ (service : AuthService) where
  pub serve : Call → Action Database (Option Session)
  serve (log_in now token user) = do answer ← login service now token user; pure (some answer.0)
  serve (log_in_by_email now token email password) = do
    answer ← login_with_email service now token email password
    pure (some answer.0)
  serve (refresh now new_token token) = do
    session ← refresh_token service now new_token token
    pure (some session)
  serve (end_all user_id) = do revoke_user_refresh_tokens service user_id; pure none

  -- one call after the other
  pub serve_all : List Call → Database → List (Result (Option Session)) × Database
  serve_all [] db = ([], db)
  serve_all (call ∷ calls) db =
      let (answer, db') = serve call db in
      let (answers, last) = serve_all calls db' in (answer ∷ answers, last)

  -- What a call may answer, and how the open sessions are after it.
  pub data Allows : Call → Result (Option Session) → List Open → List Open → Type 0 where
    logs_in :
        (now : ℕ) (token : String) (user : User) (session : Session) (os : List Open)
        → session.refresh_token ≡ token
        → Allows (log_in now token user) (ok (some session)) os (
            record { token = token; user_id = user.id; deadline = service.refresh_expiry now } ∷ os)
    logs_in_by_email :
        (now : ℕ) (token email password user_id : String) (session : Session) (os : List Open)
        → session.refresh_token ≡ token
        → Allows (log_in_by_email now token email password) (ok (some session)) os (
            record { token = token; user_id = user_id; deadline = service.refresh_expiry now } ∷ os)
    refreshes :
        (now : ℕ) (new_token : String) (session : Session) (spent : Open) (os : List Open)
        → session.refresh_token ≡ new_token
        → Has spent os
        → now ≤ spent.deadline
        → Allows (refresh now new_token spent.token) (ok (some session)) os (
            record {
              token = new_token;
              user_id = spent.user_id;
              deadline = service.refresh_expiry now;
            }
            ∷ without (has_token spent.token) os)
    ends :
        (user_id : String) (os : List Open)
        → Allows (end_all user_id) (ok none) os (without (is_of user_id) os)
    -- A call that throws opens nothing; a refresh may have closed the session that it was for.
    refuses : (call : Call) (e : Exception) (os : List Open) → Allows call (throws e) os os
    loses :
        (now : ℕ) (new_token : String) (e : Exception) (spent : Open) (os : List Open)
        → Has spent os
        → Allows
            (refresh now new_token spent.token)
            (throws e)
            os
            (without (has_token spent.token) os)

  pub data AllowsAll
      : List Call → List (Result (Option Session)) → List Open → List Open → Type 0 where
    done : (os : List Open) → AllowsAll [] [] os os
    next :
        (call : Call) (calls : List Call) (answer : Result (Option Session))
        (answers : List (Result (Option Session))) (os os' last : List Open)
        → Allows call answer os os'
        → AllowsAll calls answers os' last
        → AllowsAll (call ∷ calls) (answer ∷ answers) os last
