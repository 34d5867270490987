-- ===== src/Profiles/Tipping/Messages.antt =====
-- Whose tips the messages of `getTippingInfo` of src/profiles/profiles.service.ts are.
use mathlib.Core.Option.{some-injective}
use stellar_tip_api.Common.{
  ℕ, ◌≤◌, Bool, true, false, ◌&&◌, String, ◌==◌, eq_iff, ◌≡◌, ◌↔◌, refl, sym, ap, ◌∙◌, ◌⊎◌, inl,
  inr, Option, none, some, List, map, arith,
}
use stellar_tip_api.Common.Lists.{length}
use stellar_tip_api.Http.{ok, require_some-inv, pure-inv}
use stellar_tip_api.Entities.{User, Tip, TipStatus}
use stellar_tip_api.Database.{Orm, Database, Has}
use stellar_tip_api.Profiles.Tipping.{
  TippingReader, TippingInfo, IsDescending, is_completed, recent_where, message_of,
  get_tipping_info,
}

Status-cases :
    (s : TipStatus) → (s ≡ TipStatus.completed) ⊎ ((s ≡ TipStatus.pending) ⊎ (s ≡ TipStatus.failed))
Status-cases TipStatus.completed = inl refl
Status-cases TipStatus.pending = inr (inl refl)
Status-cases TipStatus.failed = inr (inr refl)

and_inv : (a b : Bool) → (a && b) ≡ true → (a ≡ true) × (b ≡ true)
and_inv true b h = (refl, h)
and_inv false b h = absurd (ground (arith, h))

-- A completed tip to the wallet, or to any where there is none.
pub IsReceived : Option String → Tip → Type 0
IsReceived wallet tip =
    (tip.columns.status ≡ TipStatus.completed)
    × ((w : String) → wallet ≡ some w → tip.columns.receiver_wallet ≡ w)

-- Of the rows that are taken, at most so many, the newest of them, and these in their order.
pub record AreNewest (limit : ℕ) (takes : Tip → Type 0) (rows shown : List Tip) : Type 0 where
  pub only : (tip : Tip) → Has tip shown → Has tip rows × takes tip
  pub bounded : length shown ≤ limit
  pub ordered : IsDescending (λ tip. tip.created_at) shown
  pub rest :
      (tip : Tip)
      → Has tip rows
      → takes tip
      → Has tip shown
        ⊎ ((length shown ≡ limit) × ((x : Tip) → Has x shown → tip.created_at ≤ x.created_at))

status_is : (tip : Tip) → is_completed tip ≡ true → tip.columns.status ≡ TipStatus.completed
status_is tip h = elim (Status-cases tip.columns.status) [
  | inl e ↦ e
  | inr (inl e) ↦ let undone : false ≡ true = rw e at h in absurd (ground (arith, undone))
  | inr (inr e) ↦ let undone : false ≡ true = rw e at h in absurd (ground (arith, undone))
]

recent_where_iff :
    (wallet : Option String) (tip : Tip) → (recent_where wallet tip ≡ true) ↔ IsReceived wallet tip
unfolding IsReceived
recent_where_iff none tip = (λ h. (status_is tip h, λ w e. ground arith), λ shown. rw shown.0 refl)
recent_where_iff (some wallet) tip = (
  λ h.
      let (to, done) = and_inv (tip.columns.receiver_wallet == wallet) (is_completed tip) h in
      (
        status_is tip done,
        λ w e. (eq_iff tip.columns.receiver_wallet wallet).0 to ∙ some-injective wallet w e,
      ),
  λ shown. rw (shown.0, (eq_iff tip.columns.receiver_wallet wallet).1 (shown.1 wallet refl)) refl,
)

module _ (orm : Orm) (reader : TippingReader) where
  found-AreNewest :
      (wallet : Option String) (rows : List Tip)
      → AreNewest 5
          (IsReceived wallet)
          rows
          (reader.find (recent_where wallet) (λ tip. tip.created_at) 5 rows)
  found-AreNewest wallet rows =
      let p = recent_where wallet in
      let date : Tip → ℕ = λ tip. tip.created_at in
      record {
        only = λ tip m.
            let (stored, taken) = reader.find_some p date 5 rows tip m in
            (stored, (recent_where_iff wallet tip).0 taken);
        bounded = reader.find_bounded p date 5 rows;
        ordered = reader.find_ordered p date 5 rows;
        rest = λ tip m shown.
            reader.find_rest p date 5 rows tip m ((recent_where_iff wallet tip).1 shown);
      }

  -- The page of an active user with the name: the messages are of the five newest completed tips to
  -- the user's wallet, the newest first; where the user has no wallet, they are of the five newest
  -- completed tips of all.
  pub messages_shown :
      (username : String) (db db' : Database) (info : TippingInfo)
      → get_tipping_info orm reader username db ≡ (ok info, db')
      → (user : User) × Has user db.users
        × (user.columns.username ≡ username)
        × (user.columns.is_active ≡ true)
        × (db' ≡ db)
        × ((shown : List Tip) × (info.recent_messages ≡ map message_of shown)
            × AreNewest 5 (IsReceived user.columns.wallet_address) db.tips shown)
  unfolding get_tipping_info
  messages_shown username db db' info h =
      let named : User → Bool = λ u. u.columns.username == username && u.columns.is_active in
      let (user, found, h1) = require_some-inv (orm.users.find_one named db.users) _ _ db h in
      let (listed, is_named) = orm.users.find_one_some named db.users user found in
      let (name, active) =
        and_inv (user.columns.username == username) user.columns.is_active is_named in
      let (made, same) = pure-inv h1 in
      let wallet = user.columns.wallet_address in
      (
        user,
        listed,
        (eq_iff user.columns.username username).0 name,
        active,
        same,
        (
          reader.find (recent_where wallet) (λ tip. tip.created_at) 5 db.tips,
          ap (λ i. i.recent_messages) (sym made),
          found-AreNewest wallet db.tips,
        ),
      )
