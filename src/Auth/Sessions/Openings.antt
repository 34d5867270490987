-- ===== src/Auth/Sessions/Openings.antt =====
-- What the logins of src/auth/auth.service.ts do to the open sessions.
use stellar_tip_api.Common.{ℕ, String, ◌≡◌, refl, ap, ◌∙◌, inl, inr, Option, ◌∷◌, arith}
use stellar_tip_api.Http.{
  Result, ok, throws, Exception, bind-inv, bind-throws-cases, pure-inv, require-inv-state,
  require_some-inv, require_some-throws-cases, require-throws-cases,
}
use stellar_tip_api.Entities.{User}
use stellar_tip_api.Database.{Database}
use stellar_tip_api.Auth.{AuthService, JwtPayload, Session, issue}
use stellar_tip_api.Auth.Refresh.Rotation.{issue-inv}
use stellar_tip_api.Auth.Refresh.Ended.{issue-throws}
use stellar_tip_api.Auth.Account.{Profile, login, login_with_email, email_session, password_matches}
use stellar_tip_api.Auth.Sessions.{
  sessions, log_in, log_in_by_email, serve, logs_in, logs_in_by_email, refuses,
}
use stellar_tip_api.Auth.Sessions.Refine.{IsKeyed, IsFresh, IsKeyed-insert, KeepsTo}

module _ (service : AuthService) where
  -- A call that issues a session for the payload of a user, and threw or answered.
  issue-sessions :
      (now : ℕ) (token : String) (payload : JwtPayload) (db db' : Database) (session : Session)
      → IsKeyed db.refresh_tokens
      → IsFresh token db.refresh_tokens
      → issue service now token payload db ≡ (ok session, db')
      → (session.refresh_token ≡ token)
        × (sessions db'.refresh_tokens
            ≡ record { token = token; user_id = payload.sub; deadline = service.refresh_expiry now }
              ∷ sessions db.refresh_tokens)
        × IsKeyed db'.refresh_tokens
  unfolding sessions
  issue-sessions now token payload db db' session keyed fresh h =
      let (row, columns, after, handed_out, signed, id) =
        issue-inv service now token payload db db' session h in
      let named : row.columns.token ≡ token = ap (λ c. c.token) columns in
      (
        handed_out,
        rw after (rw columns refl),
        rw after
            (IsKeyed-insert row db.refresh_tokens keyed id (λ x m same. fresh x m (same ∙ named))),
      )

  pub log_in-refines :
      (now : ℕ) (token : String) (user : User) (answer : Result (Option Session))
      (db db' : Database)
      → IsKeyed db.refresh_tokens
      → IsFresh token db.refresh_tokens
      → serve service (log_in now token user) db ≡ (answer, db')
      → KeepsTo service (log_in now token user) answer db db'
  unfolding serve login
  log_in-refines now token user (ok answer) db db' keyed fresh h =
      let (told_all, db1, e, h1) = bind-inv (login service now token user) _ db h in
      let (told, rest) = pure-inv h1 in
      let (session, db2, e2, h2) = bind-inv (issue service now token _) _ db e in
      let (told2, rest2) = pure-inv h2 in
      let (handed_out, after, keyed') = issue-sessions now token _ db db2 session keyed fresh e2 in
      rw (rest, rest2, ← told, ← told2, after)
        (logs_in now token user session (sessions db.refresh_tokens) handed_out, keyed')
  log_in-refines now token user (throws x) db db' keyed fresh h =
      elim (bind-throws-cases (login service now token user) _ db h) [
        | inr (told, db1, e, h1) ↦ absurd (ground (arith, ap (λ p. p.0) h1))
        | inl e ↦ elim (bind-throws-cases (issue service now token _) _ db e) [
          | inr (session, db1, e1, h1) ↦ absurd (ground (arith, ap (λ p. p.0) h1))
          | inl e1 ↦
              rw (issue-throws service now token _ db db' x e1)
                (refuses (log_in now token user) x (sessions db.refresh_tokens), keyed)
        ]
      ]

  email-sessions :
      (now : ℕ) (token : String) (user : User) (db db' : Database) (answer : Session × Profile)
      → IsKeyed db.refresh_tokens
      → IsFresh token db.refresh_tokens
      → email_session service now token user db ≡ (ok answer, db')
      → (answer.0.refresh_token ≡ token)
        × (sessions db'.refresh_tokens
            ≡ record { token = token; user_id = user.id; deadline = service.refresh_expiry now }
              ∷ sessions db.refresh_tokens)
        × IsKeyed db'.refresh_tokens
  unfolding email_session
  email-sessions now token user db db' answer keyed fresh h =
      let (session, db1, e, h1) = bind-inv (issue service now token _) _ db h in
      let (told, rest) = pure-inv h1 in
      rw (rest, ← told) (issue-sessions now token _ db db1 session keyed fresh e)

  email_session-throws :
      (now : ℕ) (token : String) (user : User) (db db' : Database) (x : Exception)
      → email_session service now token user db ≡ (throws x, db')
      → db' ≡ db
  unfolding email_session
  email_session-throws now token user db db' x h =
      elim (bind-throws-cases (issue service now token _) _ db h) [
        | inr (session, db1, e1, h1) ↦ absurd (ground (arith, ap (λ p. p.0) h1))
        | inl e ↦ issue-throws service now token _ db db' x e
      ]

  login_with_email-throws :
      (now : ℕ) (token email password : String) (db db' : Database) (x : Exception)
      → login_with_email service now token email password db ≡ (throws x, db')
      → db' ≡ db
  unfolding login_with_email
  login_with_email-throws now token email password db db' x h =
      elim (require_some-throws-cases (service.orm.users.find_one _ db.users) _ _ db h) [
        | inl same ↦ same
        | inr (user, found, h1) ↦
            elim (require-throws-cases (password_matches service password user.columns.password) _ _
              db h1) [
                | inl same ↦ same
                | inr h2 ↦ elim (require-throws-cases user.columns.is_active _ _ db h2) [
                  | inl same ↦ same
                  | inr h3 ↦ email_session-throws now token user db db' x h3
                ]
              ]
      ]

  login_with_email-session :
      (now : ℕ) (token email password : String) (db db' : Database) (answer : Session × Profile)
      → login_with_email service now token email password db ≡ (ok answer, db')
      → (user : User) × (email_session service now token user db ≡ (ok answer, db'))
  unfolding login_with_email
  login_with_email-session now token email password db db' answer h =
      let (user, found, h1) = require_some-inv (service.orm.users.find_one _ db.users) _ _ db h in
      let (matches, h2) =
        require-inv-state (password_matches service password user.columns.password) _ _ db h1 in
      let (active, h3) = require-inv-state user.columns.is_active _ _ db h2 in (user, h3)

  pub log_in_by_email-refines :
      (now : ℕ) (token email password : String) (answer : Result (Option Session))
      (db db' : Database)
      → IsKeyed db.refresh_tokens
      → IsFresh token db.refresh_tokens
      → serve service (log_in_by_email now token email password) db ≡ (answer, db')
      → KeepsTo service (log_in_by_email now token email password) answer db db'
  unfolding serve
  log_in_by_email-refines now token email password (ok answer) db db' keyed fresh h =
      let (told_all, db1, e, h1) =
        bind-inv (login_with_email service now token email password) _ db h in
      let (told, rest) = pure-inv h1 in
      let (user, e1) = login_with_email-session now token email password db db1 told_all e in
      let (handed_out, after, keyed') =
        email-sessions now token user db db1 told_all keyed fresh e1 in
      rw (rest, ← told, after)
        (
          logs_in_by_email now token email password user.id told_all.0 (sessions db.refresh_tokens)
              handed_out,
          keyed',
        )
  log_in_by_email-refines now token email password (throws x) db db' keyed fresh h =
      elim (bind-throws-cases (login_with_email service now token email password) _ db h) [
        | inr (told, db1, e, h1) ↦ absurd (ground (arith, ap (λ p. p.0) h1))
        | inl e ↦ rw (login_with_email-throws now token email password db db' x e) (
          refuses (log_in_by_email now token email password) x (sessions db.refresh_tokens),
          keyed,
        )
      ]
