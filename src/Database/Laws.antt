-- ===== src/Database/Laws.antt =====
-- What the writes of the tables leave, and what a row of a table that was written to is.
use stellar_tip_api.Common.{
  Bool, true, false, ◌==◌, ◌≡◌, refl, ◌≢◌, ◌⊎◌, inl, inr, some, List, [], ◌∷◌, eq_refl,
  Option-cases, Bool-cases, ◌∙◌, arith,
}
use stellar_tip_api.Http.{Exception, ok, throws}
use stellar_tip_api.Entities.{
  Entity, TipColumns, UserColumns, NotificationColumns, RefreshTokenColumns, Tip, User,
  Notification, RefreshToken,
}
use stellar_tip_api.Database.{
  Has, replace, set_where, Orm, Database, insert_tip, update_tip, update_notification,
  insert_notification, insert_user, update_user, insert_refresh_token, update_refresh_tokens,
}

-- A row of a table that was updated came from a row of the table.
pub Has-set_where :
    {C : Type 0} (p : Entity C → Bool) (f : C → C) (x : Entity C) (rows : List (Entity C))
    → Has x (set_where p f rows)
    → (y : Entity C) × Has y rows
      × (((p y ≡ true) × (x ≡ record y { columns = f y.columns })) ⊎ ((p y ≡ false) × (x ≡ y)))
unfolding set_where
Has-set_where p f x [] h = elim h [ ]
Has-set_where p f x (y ∷ ys) (inl e) = elim (Bool-cases (p y)) [
  | inl t ↦ (y, inl refl, inl (t, e ∙ rw t refl))
  | inr n ↦ (y, inl refl, inr (n, e ∙ rw n refl))
]
Has-set_where p f x (y ∷ ys) (inr h) = let (z, m, c) = Has-set_where p f x ys h in (z, inr m, c)

-- A row of a table in which one was replaced is that one, or an old row.
pub Has-replace :
    {C : Type 0} (e x : Entity C) (rows : List (Entity C))
    → Has x (replace e rows)
    → (x ≡ e) ⊎ Has x rows
unfolding replace
Has-replace e x [] h = elim h [ ]
Has-replace e x (y ∷ ys) (inl p) = elim (Bool-cases (y.id == e.id)) [
  | inl t ↦ inl (p ∙ rw t refl)
  | inr f ↦ inr (inl (p ∙ rw f refl))
]
Has-replace e x (y ∷ ys) (inr h) = elim (Has-replace e x ys h) [
  | inl p ↦ inl p
  | inr m ↦ inr (inr m)
]

-- A row that is replaced is in the table after it.
pub Has-replace_self :
    {C : Type 0} (e x : Entity C) (rows : List (Entity C))
    → Has x rows
    → x.id ≡ e.id
    → Has e (replace e rows)
unfolding replace
Has-replace_self e x [] h same = elim h [ ]
Has-replace_self e x (y ∷ ys) (inl p) same = inl (rw (← p) (rw same (rw eq_refl refl)))
Has-replace_self e x (y ∷ ys) (inr h) same = inr (Has-replace_self e x ys h same)

module _ (orm : Orm) where
  pub insert_tip-inv :
      (c : TipColumns) (db db' : Database) (tip : Tip)
      → insert_tip orm c db ≡ (ok tip, db')
      → (tip.columns ≡ c)
        × (db' ≡ record db { tips = tip ∷ db.tips })
        × ((x : Tip) → Has x db.tips → x.id ≢ tip.id)
  insert_tip-inv c db db' tip h = elim (Option-cases (orm.tips.insert c db.tips)) [
    | inl e ↦ ground arith
    | inr ((saved, rows), e) ↦
        let same : saved ≡ tip = ground arith in
        let e' : orm.tips.insert c db.tips ≡ some (tip, rows) = rw (← same) e in
        let law = orm.tips.insert_some c db.tips tip rows e' in
        (law.0, ground arith, λ x m. orm.tips.insert_fresh c db.tips tip rows x e' m)
  ]

  pub insert_notification-inv :
      (c : NotificationColumns) (db db' : Database) (n : Notification)
      → insert_notification orm c db ≡ (ok n, db')
      → (n.columns ≡ c) × (db' ≡ record db { notifications = n ∷ db.notifications })
  insert_notification-inv c db db' n h =
      elim (Option-cases (orm.notifications.insert c db.notifications)) [
        | inl e ↦ ground arith
        | inr ((saved, rows), e) ↦
            let same : saved ≡ n = ground arith in
            let law = orm.notifications.insert_some c db.notifications n rows (rw (← same) e) in
            (law.0, ground arith)
      ]

  pub update_tip-inv :
      (tip saved : Tip) (db db' : Database)
      → update_tip orm tip db ≡ (ok saved, db')
      → (saved ≡ tip) × (db' ≡ record db { tips = replace tip db.tips })
  update_tip-inv tip saved db db' h = elim (Option-cases (orm.tips.update tip db.tips)) [
    | inl e ↦ ground arith
    | inr (rows, e) ↦
        let law = orm.tips.update_some tip db.tips rows e in (ground arith, ground arith)
  ]

  pub insert_tip-throws :
      (c : TipColumns) (db db' : Database) {e : Exception}
      → insert_tip orm c db ≡ (throws e, db')
      → db' ≡ db
  insert_tip-throws c db db' h = elim (Option-cases (orm.tips.insert c db.tips)) [
    | inl n ↦ ground arith
    | inr ((saved, rows), n) ↦ ground arith
  ]

  pub insert_notification-throws :
      (c : NotificationColumns) (db db' : Database) {e : Exception}
      → insert_notification orm c db ≡ (throws e, db')
      → db' ≡ db
  insert_notification-throws c db db' h =
      elim (Option-cases (orm.notifications.insert c db.notifications)) [
        | inl n ↦ ground arith
        | inr ((saved, rows), n) ↦ ground arith
      ]

  pub update_tip-throws :
      (tip : Tip) (db db' : Database) {e : Exception}
      → update_tip orm tip db ≡ (throws e, db')
      → db' ≡ db
  update_tip-throws tip db db' h = elim (Option-cases (orm.tips.update tip db.tips)) [
    | inl n ↦ ground arith
    | inr (rows, n) ↦ ground arith
  ]

  pub insert_refresh_token-inv :
      (c : RefreshTokenColumns) (db db' : Database) (row : RefreshToken)
      → insert_refresh_token orm c db ≡ (ok row, db')
      → (row.columns ≡ c)
        × (db' ≡ record db { refresh_tokens = row ∷ db.refresh_tokens })
        × ((x : RefreshToken) → Has x db.refresh_tokens → x.id ≢ row.id)
  insert_refresh_token-inv c db db' row h =
      elim (Option-cases (orm.refresh_tokens.insert c db.refresh_tokens)) [
        | inl e ↦ ground arith
        | inr ((saved, rows), e) ↦
            let same : saved ≡ row = ground arith in
            let e' : orm.refresh_tokens.insert c db.refresh_tokens ≡ some (row, rows) =
              rw (← same) e in
            let law = orm.refresh_tokens.insert_some c db.refresh_tokens row rows e' in
            (
              law.0,
              ground arith,
              λ x m. orm.refresh_tokens.insert_fresh c db.refresh_tokens row rows x e' m,
            )
      ]

  pub insert_refresh_token-throws :
      (c : RefreshTokenColumns) (db db' : Database) {e : Exception}
      → insert_refresh_token orm c db ≡ (throws e, db')
      → db' ≡ db
  insert_refresh_token-throws c db db' h =
      elim (Option-cases (orm.refresh_tokens.insert c db.refresh_tokens)) [
        | inl n ↦ ground arith
        | inr ((saved, rows), n) ↦ ground arith
      ]

  pub update_refresh_tokens-inv :
      (p : RefreshToken → Bool) (f : RefreshTokenColumns → RefreshTokenColumns) (db db' : Database)
      → update_refresh_tokens orm p f db ≡ (ok tt, db')
      → db' ≡ record db { refresh_tokens = set_where p f db.refresh_tokens }
  update_refresh_tokens-inv p f db db' h =
      elim (Option-cases (orm.refresh_tokens.update_where p f db.refresh_tokens)) [
        | inl e ↦ ground arith
        | inr (rows, e) ↦
            let law = orm.refresh_tokens.update_where_some p f db.refresh_tokens rows e in
            ground arith
      ]

  pub update_refresh_tokens-throws :
      (p : RefreshToken → Bool) (f : RefreshTokenColumns → RefreshTokenColumns) (db db' : Database)
      {e : Exception}
      → update_refresh_tokens orm p f db ≡ (throws e, db')
      → db' ≡ db
  update_refresh_tokens-throws p f db db' h =
      elim (Option-cases (orm.refresh_tokens.update_where p f db.refresh_tokens)) [
        | inl n ↦ ground arith
        | inr (rows, n) ↦ ground arith
      ]

  pub insert_user-inv :
      (c : UserColumns) (db db' : Database) (user : User)
      → insert_user orm c db ≡ (ok user, db')
      → (user.columns ≡ c)
        × (db' ≡ record db { users = user ∷ db.users })
        × ((x : User) → Has x db.users → x.id ≢ user.id)
  insert_user-inv c db db' user h = elim (Option-cases (orm.users.insert c db.users)) [
    | inl e ↦ ground arith
    | inr ((saved, rows), e) ↦
        let same : saved ≡ user = ground arith in
        let e' : orm.users.insert c db.users ≡ some (user, rows) = rw (← same) e in
        let law = orm.users.insert_some c db.users user rows e' in
        (law.0, ground arith, λ x m. orm.users.insert_fresh c db.users user rows x e' m)
  ]

  pub update_user-inv :
      (u saved : User) (db db' : Database)
      → update_user orm u db ≡ (ok saved, db')
      → (saved ≡ u) × (db' ≡ record db { users = replace u db.users })
  update_user-inv u saved db db' h = elim (Option-cases (orm.users.update u db.users)) [
    | inl e ↦ ground arith
    | inr (rows, e) ↦
        let law = orm.users.update_some u db.users rows e in (ground arith, ground arith)
  ]

  pub update_notification-inv :
      (n saved : Notification) (db db' : Database)
      → update_notification orm n db ≡ (ok saved, db')
      → (saved ≡ n) × (db' ≡ record db { notifications = replace n db.notifications })
  update_notification-inv n saved db db' h =
      elim (Option-cases (orm.notifications.update n db.notifications)) [
        | inl e ↦ ground arith
        | inr (rows, e) ↦
            let law = orm.notifications.update_some n db.notifications rows e in
            (ground arith, ground arith)
      ]
