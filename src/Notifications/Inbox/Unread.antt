-- ===== src/Notifications/Inbox/Unread.antt =====
-- `markAsRead` and `getUnreadCount` of src/notifications/notifications.service.ts together.
use stellar_tip_api.Common.{
  ℕ, suc, ◌+◌, Bool, true, false, ◌&&◌, String, ◌==◌, eq_iff, eq_refl, ◌≡◌, ◌≢◌, refl, sym, ap, ◌∙◌,
  inl, inr, List, [], ◌∷◌, if◌then◌else◌, arith, Bool-cases,
}
use stellar_tip_api.Http.{ok, require_some-inv}
use stellar_tip_api.Entities.{Notification}
use stellar_tip_api.Database.{Database, Orm, Has, replace}
use stellar_tip_api.Database.Laws.{update_notification-inv}
use stellar_tip_api.Notifications.{mark_as_read}
use stellar_tip_api.Notifications.Inbox.{
  count_where, NotificationReader, is_unread_by, get_unread_count,
}

-- The primary key.
abbrev pub HasDistinctIds : List Notification → Type 0
HasDistinctIds [] = Unit
HasDistinctIds (x ∷ xs) = ((y : Notification) → Has y xs → y.id ≢ x.id) × HasDistinctIds xs

replace-absent :
    (e : Notification) (rows : List Notification)
    → ((y : Notification) → Has y rows → y.id ≢ e.id)
    → replace e rows ≡ rows
unfolding replace
replace-absent e [] absent = refl
replace-absent e (x ∷ xs) absent = elim (Bool-cases (x.id == e.id)) [
  | inl t ↦ absurd (absent x (inl refl) ((eq_iff x.id e.id).0 t))
  | inr f ↦ rw f (ap (λ l. x ∷ l) (replace-absent e xs (λ y m. absent y (inr m))))
]

-- Replacing a row moves a count by what the two rows count.
count_where-replace :
    (p : Notification → Bool) (e old : Notification) (rows : List Notification)
    → HasDistinctIds rows
    → Has old rows
    → old.id ≡ e.id
    → (if p old then 1 else 0) + count_where p (replace e rows)
      ≡ (if p e then 1 else 0) + count_where p rows
unfolding count_where replace
count_where-replace p e old [] distinct m same = elim m [ ]
count_where-replace p e old (x ∷ xs) (distinct, rest) (inl here) same =
    let id : x.id ≡ e.id = ap (λ n. n.id) (sym here) ∙ same in
    let gone = replace-absent e xs (λ y m at. distinct y m (at ∙ sym id)) in
    rw (here, id, eq_refl e.id, gone) (omega arith)
count_where-replace p e old (x ∷ xs) (distinct, rest) (inr m) same =
    let below = count_where-replace p e old xs rest m same in
    elim (Bool-cases (x.id == e.id)) [
      | inl t ↦ absurd (distinct old m (same ∙ sym ((eq_iff x.id e.id).0 t)))
      | inr f ↦ rw f (omega (arith, below))
    ]

module _ (orm : Orm) (reader : NotificationReader) where
  -- Marking a notification that a user may mark takes it, where it was unread, and nothing else
  -- from the user's unread count, and leaves the counts of all others; its id is one row's.
  pub marked_once :
      (notification_id user_id : String) (db db' : Database) (n : Notification) (before after : ℕ)
      → HasDistinctIds db.notifications
      → mark_as_read orm notification_id user_id db ≡ (ok n, db')
      → get_unread_count reader user_id db ≡ (ok before, db)
      → get_unread_count reader user_id db' ≡ (ok after, db')
      → (old : Notification) × Has old db.notifications
        × (old.id ≡ notification_id)
        × (old.columns.user_id ≡ user_id)
        × (n ≡ record old { columns = record (old.columns) { is_read = true } })
        × (before ≡ (if old.columns.is_read then after else suc after))
        × ((other : String)
            → other ≢ user_id
            → (get_unread_count reader other db').0 ≡ (get_unread_count reader other db).0)
  unfolding mark_as_read get_unread_count
  marked_once notification_id user_id db db' n before after distinct h counted recounted =
      let mine : Notification → Bool =
        λ n. n.id == notification_id && n.columns.user_id == user_id in
      let (old, found, h1) =
        require_some-inv (orm.notifications.find_one mine db.notifications) _ _ db h in
      let (listed, is_mine) = orm.notifications.find_one_some mine db.notifications old found in
      let read : Notification = record old { columns = record (old.columns) { is_read = true } } in
      let (saved, stored) = update_notification-inv orm read n db db' h1 in
      let id : old.id ≡ notification_id = ground (arith, is_mine, eq_iff old.id notification_id) in
      let owner : old.columns.user_id ≡ user_id =
        ground (arith, is_mine, eq_iff old.columns.user_id user_id) in
      let mine_moved =
        count_where-replace (is_unread_by user_id) read old db.notifications distinct listed refl in
      let rows : db'.notifications ≡ replace read db.notifications =
        ap (λ d. d.notifications) stored in
      let was : before ≡ count_where (is_unread_by user_id) db.notifications =
        ground (arith, counted, reader.count_lem (is_unread_by user_id) db.notifications) in
      let is_now : after ≡ count_where (is_unread_by user_id) (replace read db.notifications) =
        ground
          (arith, recounted, reader.count_lem (is_unread_by user_id) db'.notifications, rows) in
      (
        old,
        listed,
        id,
        owner,
        saved,
        elim (Bool-cases old.columns.is_read) [
          | inl t ↦ rw t (ground (arith, t, mine_moved, was, is_now))
          | inr f ↦ rw f (ground (arith, f, mine_moved, was, is_now, owner, eq_refl user_id))
        ],
        λ other differs.
            let not_theirs : (old.columns.user_id == other) ≡ false =
              elim (Bool-cases (old.columns.user_id == other)) [
                | inl t ↦ absurd (differs (sym ((eq_iff old.columns.user_id other).0 t) ∙ owner))
                | inr f ↦ f
              ] in
            let moved =
              count_where-replace (is_unread_by other) read old db.notifications distinct listed
                refl in
            let same : count_where (is_unread_by other) (replace read db.notifications)
                ≡ count_where (is_unread_by other) db.notifications =
              ground (arith, moved, not_theirs) in
            ap ok (
              reader.count_lem (is_unread_by other) db'.notifications
              ∙ ap (count_where (is_unread_by other)) rows
              ∙ same
              ∙ sym (reader.count_lem (is_unread_by other) db.notifications)),
      )
