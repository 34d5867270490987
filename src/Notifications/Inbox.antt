-- ===== src/Notifications/Inbox.antt =====
-- What a user reads of the notifications: `getNotifications` and `getUnreadCount` of
-- src/notifications/notifications.service.ts.
pub mod Unread
mod Tests
use stellar_tip_api.Common.{
  ℕ, zero, suc, ◌+◌, Bool, true, false, not, ◌&&◌, String, ◌==◌, ◌≡◌, Option, none, some, List, [],
  ◌∷◌, ◌↔◌, if◌then◌else◌,
}
use stellar_tip_api.Common.Num.{Num, num, lt_num, ceil_div, pred_num, mul_num}
use stellar_tip_api.Common.Lists.{length, take, drop}
use stellar_tip_api.Http.{Action, ok, pure, require_some, failure, ◌>>=◌}
use stellar_tip_api.Entities.{Notification}
use stellar_tip_api.Database.{Database, Has}

-- How many rows a test takes.
pub count_where : (Notification → Bool) → List Notification → ℕ
count_where p [] = 0
count_where p (x ∷ xs) = (if p x then 1 else 0) + count_where p xs

-- TypeORM's `findAndCount` and `count` on the notifications. `newest` is the rows that the `where`
-- takes, by their time of creation, the last first.
pub record NotificationReader : Type 0 where
  pub newest : (Notification → Bool) → List Notification → List Notification
  pub newest_iff :
      (p : Notification → Bool) (rows : List Notification) (n : Notification)
      → Has n (newest p rows) ↔ (Has n rows × (p n ≡ true))
  pub find_and_count :
      (Notification → Bool) → Num → Num → List Notification → Option (List Notification × ℕ)
  pub find_and_count_page :
      (p : Notification → Bool) (skip limit : ℕ) (rows : List Notification)
      → find_and_count p (num skip) (num limit) rows
        ≡ some (take limit (drop skip (newest p rows)), length (newest p rows))
  pub count : (Notification → Bool) → List Notification → ℕ
  pub count_lem :
      (p : Notification → Bool) (rows : List Notification) → count p rows ≡ count_where p rows

pub record NotificationPage : Type 0 where
  pub rows : List Notification
  pub total : ℕ
  pub page : Num
  pub limit : Num
  pub total_pages : Num
  pub has_next_page : Bool
  pub has_previous_page : Bool

abbrev pub is_to : String → Notification → Bool
is_to user_id n = n.columns.user_id == user_id

abbrev pub is_unread_by : String → Notification → Bool
is_unread_by user_id n = n.columns.user_id == user_id && not n.columns.is_read

module _ (reader : NotificationReader) where
  -- the database refuses a skip or a limit that is no natural number
  unfoldable pub get_notifications : String → Num → Num → Action Database NotificationPage
  get_notifications user_id page limit db =
      let read =
        reader.find_and_count (is_to user_id) (mul_num (pred_num page) limit) limit
          db.notifications in
      (require_some read failure >>= λ found. pure (record {
        rows = found.0;
        total = found.1;
        page = page;
        limit = limit;
        total_pages = ceil_div found.1 limit;
        has_next_page = lt_num page (ceil_div found.1 limit);
        has_previous_page = lt_num (num 1) page;
      }))
        db

  unfoldable pub get_unread_count : String → Action Database ℕ
  get_unread_count user_id db = (ok (reader.count (is_unread_by user_id) db.notifications), db)
