-- ===== src/Auth/Refresh/Race.antt =====
-- Two requests to `refreshToken` of src/auth/auth.service.ts with the same token, of which the
-- second reads the token before the first has revoked it.
use stellar_tip_api.Common.{
  ℕ, Bool, String, ◌==◌, ◌≡◌, ◌≢◌, refl, sym, ap, ◌∙◌, inl, inr, none, some, List,
}
use stellar_tip_api.Http.{ok, lift, bind-ok}
use stellar_tip_api.Entities.{RefreshToken, RefreshTokenColumns, User}
use stellar_tip_api.Database.{Database, Repository, update_refresh_tokens, insert_refresh_token}
use stellar_tip_api.Auth.{
  AuthService, JwtPayload, Session, create_refresh_token, issue, access_token_expires_in,
  parse_expires_in,
}
use stellar_tip_api.Auth.Refresh.{revoked, check_refresh, rotate}
use stellar_tip_api.Auth.Refresh.Rotation.{next_columns}
use stellar_tip_api.Auth.Sessions.Refine.{IsFresh, IsFresh-revoked}
use stellar_tip_api.Auth.Refresh.Spent.{rotate-IsRotated}

-- A table of refresh tokens that refuses no revocation, and no token of the user, who is
-- registered, that no row has: the column is unique.
pub record TakesWrites (user_id : String) (table : Repository RefreshTokenColumns) : Type 0 where
  pub inserts :
      (c : RefreshTokenColumns) (rows : List RefreshToken)
      → c.user_id ≡ user_id
      → IsFresh c.token rows
      → (e : RefreshToken) × (rows' : List RefreshToken) × (table.insert c rows ≡ some (e, rows'))
  pub updates :
      (p : RefreshToken → Bool) (rows : List RefreshToken)
      → (rows' : List RefreshToken) × (table.update_where p revoked rows ≡ some rows')

module _ (service : AuthService) where
  pub rotate-ok :
      (now : ℕ) (new_token access : String) (row : RefreshToken) (user : User) (db : Database)
      → TakesWrites user.id service.orm.refresh_tokens
      → IsFresh new_token db.refresh_tokens
      → service.sign now
          (record { sub = user.id; role = user.columns.role; auth_method = none })
          (access_token_expires_in service)
        ≡ ok access
      → (session : Session) × (db' : Database) × (rotate service now new_token row user db
          ≡ (ok session, db'))
  unfolding rotate issue create_refresh_token
  rotate-ok now new_token access row user db takes unused signed =
      let payload : JwtPayload = record {
        sub = user.id;
        role = user.columns.role;
        auth_method = none;
      } in
      let columns = next_columns service now new_token user.id in
      let this : RefreshToken → Bool = λ r. r.id == row.id in
      let (rows, updated) = takes.updates this db.refresh_tokens in
      let (e, rows', inserted) = takes.inserts columns rows refl (
        rw
          (service.orm.refresh_tokens.update_where_some this revoked db.refresh_tokens rows updated)
          (IsFresh-revoked this new_token db.refresh_tokens unused)) in
      let db1 : Database = record db { refresh_tokens = rows } in
      let db2 : Database = record db { refresh_tokens = rows' } in
      let spent : update_refresh_tokens service.orm this revoked db ≡ (ok tt, db1) =
        rw (update_refresh_tokens, updated) refl in
      let stored : insert_refresh_token service.orm columns db1 ≡ (ok e, db2) =
        rw (insert_refresh_token, inserted) refl in
      let made : create_refresh_token service now new_token user.id db1 ≡ (ok new_token, db2) =
        bind-ok (insert_refresh_token service.orm columns) _ db1 db2 stored in
      let signs : lift (service.sign now payload (access_token_expires_in service)) db1
          ≡ (ok access, db1) =
        rw signed refl in
      (
        record {
          access_token = access;
          refresh_token = new_token;
          expires_in = parse_expires_in (access_token_expires_in service);
        },
        db2,
        bind-ok (update_refresh_tokens service.orm this revoked) _ db db1 spent
            ∙ bind-ok (lift (service.sign now payload (access_token_expires_in service))) _ db1 db1
                signs
            ∙ bind-ok (create_refresh_token service now new_token user.id) _ db1 db2 made,
      )

  -- Another token stays unused.
  rotated-IsFresh :
      (now : ℕ) (new_token token : String) (row : RefreshToken) (user : User) (db db' : Database)
      (session : Session)
      → rotate service now new_token row user db ≡ (ok session, db')
      → IsFresh token db.refresh_tokens
      → new_token ≢ token
      → IsFresh token db'.refresh_tokens
  rotated-IsFresh now new_token token row user db db' session h unused distinct x m same =
      let rotated = rotate-IsRotated service now new_token row user db db' session h in
      elim (rw rotated.after at m) [
        | inl e ↦
            distinct
              (sym (ap (λ c. c.token) rotated.columns) ∙ sym (ap (λ x. x.columns.token) e) ∙ same)
        | inr n ↦ IsFresh-revoked _ token db.refresh_tokens unused x n same
      ]

  -- A request that was received, one that has read its token, and one that is answered.
  pub data Request : Type 0 where
    received : (token new_token : String) → Request
    has_read : (new_token : String) → RefreshToken → User → Request
    answered : Session → Request

  -- What a request does between two of its waits for the database.
  pub data Step (now : ℕ) : Database → Request → Database → Request → Type 0 where
    reads :
        {token new_token : String} {row : RefreshToken} {user : User} {db db' : Database}
        → check_refresh service now token db ≡ (ok (row, user), db')
        → Step now db (received token new_token) db' (has_read new_token row user)
    rotates :
        {new_token : String} {row : RefreshToken} {user : User} {db db' : Database}
        {session : Session}
        → rotate service now new_token row user db ≡ (ok session, db')
        → Step now db (has_read new_token row user) db' (answered session)

  -- Two requests on one database, in any order of their steps.
  pub data Runs (now : ℕ)
      : Database → Request → Request → Database → Request → Request → Type 0 where
    stays : {db : Database} {p q : Request} → Runs now db p q db p q
    first :
        {db db1 db2 : Database} {p p1 p2 q q2 : Request}
        → Step now db p db1 p1
        → Runs now db1 p1 q db2 p2 q2
        → Runs now db p q db2 p2 q2
    second :
        {db db1 db2 : Database} {p p2 q q1 q2 : Request}
        → Step now db q db1 q1
        → Runs now db1 p q1 db2 p2 q2
        → Runs now db p q db2 p2 q2

  -- Two requests with one token that can be spent have an order of their steps in which both are
  -- answered, each with its own new token, where the two new tokens differ and no row has them,
  -- the table takes a revocation and a new token of the user, and the payload can be signed.
  pub raced_refresh :
      (now : ℕ) (token first_token second_token access : String) (row : RefreshToken) (user : User)
      (db : Database)
      → TakesWrites user.id service.orm.refresh_tokens
      → IsFresh first_token db.refresh_tokens
      → IsFresh second_token db.refresh_tokens
      → first_token ≢ second_token
      → service.sign now
          (record { sub = user.id; role = user.columns.role; auth_method = none })
          (access_token_expires_in service)
        ≡ ok access
      → check_refresh service now token db ≡ (ok (row, user), db)
      → (one two : Session) × (db' : Database) × (one.refresh_token ≡ first_token)
        × (two.refresh_token ≡ second_token)
        × Runs now db
            (received token first_token)
            (received token second_token)
            db'
            (answered one)
            (answered two)
  raced_refresh now token first_token second_token access row user db takes unused_first
        unused_second distinct signed checked =
      let (one, db1, h1) = rotate-ok now first_token access row user db takes unused_first signed in
      let unused =
        rotated-IsFresh now first_token second_token row user db db1 one h1 unused_second
          distinct in
      let (two, db2, h2) = rotate-ok now second_token access row user db1 takes unused signed in
      (
        one,
        two,
        db2,
        (rotate-IsRotated service now first_token row user db db1 one h1).handed_out,
        (rotate-IsRotated service now second_token row user db1 db2 two h2).handed_out,
        first (reads checked)
            (second (reads checked) (first (rotates h1) (second (rotates h2) stays))),
      )
