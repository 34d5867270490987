-- ===== src/Database.antt =====
-- TypeORM's repositories, which the program calls and does not implement, as a record of what
-- they do. A table is the list of its rows; the order says nothing, and which of several matching
-- rows `findOne` takes is left open. A write gives `none` where the database refuses it.
pub mod Laws
use stellar_tip_api.Common.{
  Bool, true, false, ◌==◌, ◌≡◌, refl, ◌≢◌, ◌⊎◌, inl, inr, Option, none, some, List, [], ◌∷◌,
  if◌then◌else◌, eq_refl, Option-cases, Bool-cases, ◌∙◌, arith,
}
pub use stellar_tip_api.Common.Lists.{Has}
use stellar_tip_api.Http.{Exception, Action, ok, throws, failure}
use stellar_tip_api.Entities.{
  Entity, TipColumns, UserColumns, NotificationColumns, RefreshTokenColumns, Tip, User,
  Notification, RefreshToken,
}

-- The table after `UPDATE ... WHERE id = e.id`.
unfoldable pub replace : {C : Type 0} → Entity C → List (Entity C) → List (Entity C)
replace e [] = []
replace e (x ∷ xs) = (if x.id == e.id then e else x) ∷ replace e xs

-- The table after `UPDATE ... SET ... WHERE`.
unfoldable pub set_where :
    {C : Type 0} → (Entity C → Bool) → (C → C) → List (Entity C) → List (Entity C)
set_where p f [] = []
set_where p f (x ∷ xs) = (if p x then record x { columns = f x.columns } else x) ∷ set_where p f xs

pub record Repository (C : Type 0) : Type 0 where
  -- `findOne({ where })`
  pub find_one : (Entity C → Bool) → List (Entity C) → Option (Entity C)
  pub find_one_some :
      (p : Entity C → Bool) (rows : List (Entity C)) (e : Entity C)
      → find_one p rows ≡ some e
      → Has e rows × (p e ≡ true)
  pub find_one_none :
      (p : Entity C → Bool) (rows : List (Entity C)) (e : Entity C)
      → find_one p rows ≡ none
      → Has e rows
      → p e ≡ false
  -- `save` of an entity with no id: the stored row, with its id and creation time
  pub insert : C → List (Entity C) → Option (Entity C × List (Entity C))
  pub insert_some :
      (c : C) (rows : List (Entity C)) (e : Entity C) (rows' : List (Entity C))
      → insert c rows ≡ some (e, rows')
      → (e.columns ≡ c) × (rows' ≡ e ∷ rows)
  pub insert_fresh :
      (c : C) (rows : List (Entity C)) (e : Entity C) (rows' : List (Entity C)) (x : Entity C)
      → insert c rows ≡ some (e, rows')
      → Has x rows
      → x.id ≢ e.id
  -- `save` of an entity that was read
  pub update : Entity C → List (Entity C) → Option (List (Entity C))
  pub update_some :
      (e : Entity C) (rows rows' : List (Entity C))
      → update e rows ≡ some rows'
      → rows' ≡ replace e rows
  -- `update(criteria, { ... })`
  pub update_where : (Entity C → Bool) → (C → C) → List (Entity C) → Option (List (Entity C))
  pub update_where_some :
      (p : Entity C → Bool) (f : C → C) (rows rows' : List (Entity C))
      → update_where p f rows ≡ some rows'
      → rows' ≡ set_where p f rows

pub record Orm : Type 0 where
  pub users : Repository UserColumns
  pub tips : Repository TipColumns
  pub notifications : Repository NotificationColumns
  pub refresh_tokens : Repository RefreshTokenColumns

-- The tables.
pub record Database : Type 0 where
  pub users : List User
  pub tips : List Tip
  pub notifications : List Notification
  pub refresh_tokens : List RefreshToken

module _ (orm : Orm) where
  abbrev pub find_user : (User → Bool) → Action Database (Option User)
  find_user p db = (ok (orm.users.find_one p db.users), db)

  abbrev pub find_tip : (Tip → Bool) → Action Database (Option Tip)
  find_tip p db = (ok (orm.tips.find_one p db.tips), db)

  abbrev pub find_notification : (Notification → Bool) → Action Database (Option Notification)
  find_notification p db = (ok (orm.notifications.find_one p db.notifications), db)

  abbrev pub insert_tip : TipColumns → Action Database Tip
  insert_tip c db = elim (orm.tips.insert c db.tips) [
    | none ↦ (throws failure, db)
    | some (tip, rows) ↦ (ok tip, record db { tips = rows })
  ]

  abbrev pub update_tip : Tip → Action Database Tip
  update_tip tip db = elim (orm.tips.update tip db.tips) [
    | none ↦ (throws failure, db)
    | some rows ↦ (ok tip, record db { tips = rows })
  ]

  abbrev pub insert_notification : NotificationColumns → Action Database Notification
  insert_notification c db = elim (orm.notifications.insert c db.notifications) [
    | none ↦ (throws failure, db)
    | some (e, rows) ↦ (ok e, record db { notifications = rows })
  ]

  abbrev pub update_notification : Notification → Action Database Notification
  update_notification e db = elim (orm.notifications.update e db.notifications) [
    | none ↦ (throws failure, db)
    | some rows ↦ (ok e, record db { notifications = rows })
  ]

module _ (orm : Orm) where
  abbrev pub insert_user : UserColumns → Action Database User
  insert_user c db = elim (orm.users.insert c db.users) [
    | none ↦ (throws failure, db)
    | some (u, rows) ↦ (ok u, record db { users = rows })
  ]

  abbrev pub update_user : User → Action Database User
  update_user u db = elim (orm.users.update u db.users) [
    | none ↦ (throws failure, db)
    | some rows ↦ (ok u, record db { users = rows })
  ]

  abbrev pub find_refresh_token : (RefreshToken → Bool) → Action Database (Option RefreshToken)
  find_refresh_token p db = (ok (orm.refresh_tokens.find_one p db.refresh_tokens), db)

  abbrev pub insert_refresh_token : RefreshTokenColumns → Action Database RefreshToken
  insert_refresh_token c db = elim (orm.refresh_tokens.insert c db.refresh_tokens) [
    | none ↦ (throws failure, db)
    | some (t, rows) ↦ (ok t, record db { refresh_tokens = rows })
  ]

  abbrev pub update_refresh_tokens :
      (RefreshToken → Bool)
      → (RefreshTokenColumns → RefreshTokenColumns)
      → Action Database (Unit {0})
  update_refresh_tokens p f db = elim (orm.refresh_tokens.update_where p f db.refresh_tokens) [
    | none ↦ (throws failure, db)
    | some rows ↦ (ok tt, record db { refresh_tokens = rows })
  ]
