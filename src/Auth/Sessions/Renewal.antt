-- ===== src/Auth/Sessions/Renewal.antt =====
-- An open session can be carried on with `refreshToken` of src/auth/auth.service.ts.
use stellar_tip_api.Common.{
  ℕ, ◌≤◌, Bool, true, false, not, String, ◌==◌, eq_iff, eq_refl, ◌≡◌, refl, sym, ap, ◌∙◌, inl, inr,
  some, none, List, [], ◌∷◌, arith, Bool-cases, Option-cases, ltb,
}
use stellar_tip_api.Http.{ok, bind-ok}
use stellar_tip_api.Entities.{RefreshToken, User}
use stellar_tip_api.Database.{Database, Has}
use stellar_tip_api.Auth.{AuthService, Session, access_token_expires_in}
use stellar_tip_api.Auth.Refresh.{usable, check_refresh, refresh_token}
use stellar_tip_api.Auth.Refresh.Rotation.{usable-inv}
use stellar_tip_api.Auth.Refresh.Spent.{rotate-IsRotated}
use stellar_tip_api.Auth.Refresh.Race.{TakesWrites, rotate-ok}
use stellar_tip_api.Auth.Sessions.{Open, opened, sessions}
use stellar_tip_api.Auth.Sessions.Refine.{IsKeyed, IsFresh}

-- The row of an open session.
Has-sessions_inv :
    (o : Open) (rows : List RefreshToken)
    → Has o (sessions rows)
    → (row : RefreshToken) × Has row rows × (row.columns.is_revoked ≡ false) × (o ≡ opened row)
unfolding sessions
Has-sessions_inv o [] m = elim m [ ]
Has-sessions_inv o (r ∷ rs) m = elim (Bool-cases r.columns.is_revoked) [
  | inl t ↦
      let (row, n, unrevoked, same) = Has-sessions_inv o rs (rw t at m) in
      (row, inr n, unrevoked, same)
  | inr f ↦ elim (rw f at m) [
    | inl e ↦ (r, inl refl, f, e)
    | inr n ↦
        let (row, n', unrevoked, same) = Has-sessions_inv o rs n in (row, inr n', unrevoked, same)
  ]
]

module _ (service : AuthService) where
  finds_row :
      (row : RefreshToken) (db : Database)
      → IsKeyed db.refresh_tokens
      → Has row db.refresh_tokens
      → row.columns.is_revoked ≡ false
      → service.orm.refresh_tokens.find_one (usable service row.columns.token) db.refresh_tokens
        ≡ some row
  finds_row row db keyed listed unrevoked =
      let rows = db.refresh_tokens in
      elim (Option-cases
        (service.orm.refresh_tokens.find_one (usable service row.columns.token) rows)) [
          | inl absent ↦
              let missed = service.orm.refresh_tokens.find_one_none _ rows row absent listed in
              absurd (ground (arith, missed, unrevoked, eq_refl row.columns.token))
          | inr (r, found) ↦
              let (m, can) = service.orm.refresh_tokens.find_one_some _ rows r found in
              let (named, _) = usable-inv service row.columns.token r can in
              found ∙ ap some (keyed r row m listed (inr named))
        ]

  finds_owner :
      (user : User) (db : Database)
      → ((x y : User) → Has x db.users → Has y db.users → x.id ≡ y.id → x ≡ y)
      → Has user db.users
      → service.orm.users.find_one (λ u. u.id == user.id) db.users ≡ some user
  finds_owner user db unique listed =
      let by_id : User → Bool = λ u. u.id == user.id in
      elim (Option-cases (service.orm.users.find_one by_id db.users)) [
        | inl absent ↦
            let missed = service.orm.users.find_one_none by_id db.users user absent listed in
            absurd (ground (arith, missed, eq_refl user.id))
        | inr (u, found) ↦
            let (m, same) = service.orm.users.find_one_some by_id db.users u found in
            found ∙ ap some (unique u user m listed ((eq_iff u.id user.id).0 same))
      ]

  checks :
      (now : ℕ) (row : RefreshToken) (user : User) (db : Database)
      → service.orm.refresh_tokens.find_one (usable service row.columns.token) db.refresh_tokens
        ≡ some row
      → service.orm.users.find_one (λ u. u.id == user.id) db.users ≡ some user
      → row.columns.user_id ≡ user.id
      → user.columns.is_active ≡ true
      → now ≤ row.columns.expires_at
      → check_refresh service now row.columns.token db ≡ (ok (row, user), db)
  unfolding check_refresh
  checks now row user db found joined owner active unexpired =
      let early : not (ltb row.columns.expires_at now) ≡ true = ground (arith, unexpired) in
      rw (found, owner, early, joined, active) refl

  -- The token of an open session that is not expired, of a registered and active user, is answered
  -- with the next token, where no row has that one, the payload can be signed and the table takes a
  -- revocation and a new token of the user; an id and a token are one row's, and an id is one
  -- user's.
  pub open_session_is_renewed :
      (now : ℕ) (new_token access : String) (o : Open) (user : User) (db : Database)
      → IsKeyed db.refresh_tokens
      → ((x y : User) → Has x db.users → Has y db.users → x.id ≡ y.id → x ≡ y)
      → TakesWrites user.id service.orm.refresh_tokens
      → IsFresh new_token db.refresh_tokens
      → Has o (sessions db.refresh_tokens)
      → now ≤ o.deadline
      → Has user db.users
      → o.user_id ≡ user.id
      → user.columns.is_active ≡ true
      → service.sign now
          (record { sub = user.id; role = user.columns.role; auth_method = none })
          (access_token_expires_in service)
        ≡ ok access
      → (session : Session) × (db' : Database) × (refresh_token service now new_token o.token db
          ≡ (ok session, db'))
        × (session.refresh_token ≡ new_token)
  unfolding refresh_token
  open_session_is_renewed now new_token access o user db keyed unique takes unused is_open unexpired
        registered owner active signed =
      let (row, listed, unrevoked, same) = Has-sessions_inv o db.refresh_tokens is_open in
      let found = finds_row row db keyed listed unrevoked in
      let joined = finds_owner user db unique registered in
      let checked =
        checks now row user db found joined (sym (ap (λ o. o.user_id) same) ∙ owner) active
          (omega (arith, unexpired, ap (λ o. o.deadline) same)) in
      let (session, db', rotated) =
        rotate-ok service now new_token access row user db takes unused signed in
      (
        session,
        db',
        rw same (bind-ok (check_refresh service now row.columns.token) _ db db checked ∙ rotated),
        (rotate-IsRotated service now new_token row user db db' session rotated).handed_out,
      )
