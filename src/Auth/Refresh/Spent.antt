-- ===== src/Auth/Refresh/Spent.antt =====
-- `refreshToken` of src/auth/auth.service.ts: one call, two calls with the same token, and a call
-- that fails.
use stellar_tip_api.Common.{
  ℕ, true, false, String, ◌==◌, ◌≡◌, ◌≢◌, refl, sym, ap, ◌∙◌, inl, inr, none, ◌∷◌, arith, eq_refl,
  Option-cases,
}
use stellar_tip_api.Http.{ok, throws, unauthorized, bind-inv}
use stellar_tip_api.Entities.{RefreshToken, User}
use stellar_tip_api.Database.{Database, Has, set_where, update_refresh_tokens}
use stellar_tip_api.Database.Laws.{Has-set_where, update_refresh_tokens-inv}
use stellar_tip_api.Auth.{AuthService, JwtPayload, Session, access_token_expires_in}
use stellar_tip_api.Auth.Refresh.{revoked, usable, check_refresh, rotate, refresh_token}
use stellar_tip_api.Auth.Refresh.Rotation.{
  next_columns, issue-inv, IsSpendable, usable-inv, check_refresh-IsSpendable,
}

-- The unique column `token`.
abbrev pub HasUniqueTokens : Database → Type 0
HasUniqueTokens db =
    (x y : RefreshToken)
    → Has x db.refresh_tokens
    → Has y db.refresh_tokens
    → x.columns.token ≡ y.columns.token
    → x.id ≡ y.id

module _ (service : AuthService) where
  -- The row is revoked, and the session's token is stored for the same user.
  pub record IsRotated (now : ℕ) (new_token : String) (db db' : Database) (session : Session)
      (row : RefreshToken) (user : User) : Type 0 where
    pub next : RefreshToken
    pub columns : next.columns ≡ next_columns service now new_token user.id
    pub handed_out : session.refresh_token ≡ new_token
    pub signed :
        service.sign now
          (record { sub = user.id; role = user.columns.role; auth_method = none })
          (access_token_expires_in service)
        ≡ ok session.access_token
    pub after :
        db'.refresh_tokens ≡ next ∷ set_where (λ r. r.id == row.id) revoked db.refresh_tokens
    pub fresh :
        (x : RefreshToken)
        → Has x (set_where (λ r. r.id == row.id) revoked db.refresh_tokens)
        → x.id ≢ next.id
    pub rest : db' ≡ record db { refresh_tokens = db'.refresh_tokens }

  pub rotate-IsRotated :
      (now : ℕ) (new_token : String) (row : RefreshToken) (user : User) (db db' : Database)
      (session : Session)
      → rotate service now new_token row user db ≡ (ok session, db')
      → IsRotated now new_token db db' session row user
  unfolding rotate
  rotate-IsRotated now new_token row user db db' session h =
      let (done, db1, e1, h1) =
        bind-inv (update_refresh_tokens service.orm (λ r. r.id == row.id) revoked) _ db h in
      let updated = update_refresh_tokens-inv service.orm (λ r. r.id == row.id) revoked db db1 e1 in
      let payload : JwtPayload = record {
        sub = user.id;
        role = user.columns.role;
        auth_method = none;
      } in
      let (next, columns, after, handed_out, signed, fresh) =
        issue-inv service now new_token payload db1 db' session h1 in
      let whole =
        after
        ∙ ap {A = Database} (λ d. record d { refresh_tokens = next ∷ d.refresh_tokens }) updated in
      record {
        next = next;
        columns = columns;
        handed_out = handed_out;
        signed = signed;
        after = ap (λ d. d.refresh_tokens) whole;
        fresh = λ x m. fresh x (rw updated m);
        rest =
            whole
            ∙ ap (λ l. record db { refresh_tokens = l }) (sym (ap (λ d. d.refresh_tokens) whole));
      }

  -- A refresh that answers spent a stored token that was neither revoked nor expired, of a
  -- registered and active user; it revoked that token, stored the new one for the same user, and
  -- changed nothing else. The access token is signed for that user.
  pub refresh_rotates_token :
      (now : ℕ) (new_token token : String) (db db' : Database) (session : Session)
      → refresh_token service now new_token token db ≡ (ok session, db')
      → (row : RefreshToken) × (user : User) × IsSpendable service now token db row user
        × IsRotated now new_token db db' session row user
  unfolding refresh_token
  refresh_rotates_token now new_token token db db' session h =
      let ((row, user), db1, e, h1) = bind-inv (check_refresh service now token) _ db h in
      let (spendable, same) = check_refresh-IsSpendable service now token db db1 row user e in
      let h2 : rotate service now new_token row user db ≡ (ok session, db') = rw (← same) h1 in
      (row, user, spendable, rotate-IsRotated now new_token row user db db' session h2)

  not_usable :
      (now : ℕ) (new_token token : String) (db db' : Database) (session : Session)
      (row x : RefreshToken) (user : User)
      → HasUniqueTokens db
      → new_token ≢ token
      → IsSpendable service now token db row user
      → IsRotated now new_token db db' session row user
      → Has x db'.refresh_tokens
      → usable service token x ≡ true
      → ⊥
  not_usable now new_token token db db' session row x user unique new spendable rotated m can =
      let (named, unrevoked) = usable-inv service token x can in
      elim (rw rotated.after at m) [
        | inl e ↦
            new
              (sym (ap (λ c. c.token) rotated.columns) ∙ ap (λ r. r.columns.token) (sym e) ∙ named)
        | inr old ↦
            let (y, listed, case) =
              Has-set_where (λ r. r.id == row.id) revoked x db.refresh_tokens old in
            elim case [
              | inl (here, e) ↦ ground (arith, ap (λ r. r.columns.is_revoked) e, unrevoked)
              | inr (other, e) ↦
                  let same_token : y.columns.token ≡ row.columns.token =
                    ap (λ r. r.columns.token) (sym e) ∙ named ∙ sym spendable.named in
                  let same = unique y row listed spendable.listed same_token in
                  let differs : (row.id == row.id) ≡ false = rw same at other in
                  ground (arith, differs, eq_refl row.id)
            ]
      ]

  -- A token that was spent once is refused ever after on those tables, at any time and whatever
  -- token is to come next; the tables' tokens are unique, and the new token is another one.
  pub spent_token :
      (now later : ℕ) (new_token other token : String) (db db' : Database) (session : Session)
      → HasUniqueTokens db
      → new_token ≢ token
      → refresh_token service now new_token token db ≡ (ok session, db')
      → refresh_token service later other token db'
        ≡ (throws (unauthorized "Invalid refresh token"), db')
  unfolding refresh_token check_refresh
  spent_token now later new_token other token db db' session unique new h =
      let (row, user, spendable, rotated) =
        refresh_rotates_token now new_token token db db' session h in
      elim (Option-cases
        (service.orm.refresh_tokens.find_one (usable service token) db'.refresh_tokens)) [
          | inl absent ↦ rw absent refl
          | inr (x, found) ↦
              let (m, can) =
                service.orm.refresh_tokens.find_one_some _ db'.refresh_tokens x found in
              absurd (
                not_usable now new_token token db db' session row x user unique new spendable
                  rotated m can)
        ]
