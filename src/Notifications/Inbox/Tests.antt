-- ===== src/Notifications/Inbox/Tests.antt =====
-- A user marks one of two notifications as read (src/notifications/notifications.service.ts).
use stellar_tip_api.Common.{
  ℕ, Bool, true, false, String, ◌≡◌, ◌≢◌, eq_iff, refl, sym, ap, ◌∙◌, inl, inr, none, some, [], ◌∷◌,
  arith, if◌then◌else◌,
}
use stellar_tip_api.Common.Num.{fin, pos}
use stellar_tip_api.Common.Lists.{length, take, drop}
use stellar_tip_api.Http.{ok}
use stellar_tip_api.Entities.{Notification, tip_received}
use stellar_tip_api.Database.{Database, Has, replace}
use stellar_tip_api.Fixtures.{empty_database, list_orm}
use stellar_tip_api.Fixtures.Readers.{kept, kept_iff}
use stellar_tip_api.Notifications.{mark_as_read}
use stellar_tip_api.Notifications.Inbox.{NotificationReader, count_where, get_unread_count}
use stellar_tip_api.Notifications.Inbox.Unread.{HasDistinctIds, marked_once}

abbrev reader : NotificationReader
reader = record {
  newest = λ p rows. kept p rows;
  newest_iff = λ p rows n. kept_iff p rows n;
  find_and_count = λ p skip limit rows. elim skip [
    | fin (pos n) ↦ elim limit [
      | fin (pos m) ↦ some (take m (drop n (kept p rows)), length (kept p rows))
      | _ ↦ none
    ]
    | _ ↦ none
  ];
  find_and_count_page = λ p skip limit rows. refl;
  count = λ p rows. count_where p rows;
  count_lem = λ p rows. refl;
}

abbrev notification : String → String → Bool → Notification
notification id user is_read = record {
  id = id;
  created_at = 0;
  columns = record {
    user_id = user;
    kind = tip_received;
    title = "Tip Received";
    message = "";
    is_read = is_read;
    metadata = none;
  };
}

abbrev inbox : Database
inbox = record empty_database {
  notifications =
      notification "n1" "u1" false
      ∷ notification "n2" "u1" false
      ∷ notification "n3" "u2" false
      ∷ [];
}

abbrev read_inbox : Database
read_inbox = record inbox {
  notifications =
      notification "n1" "u1" false
      ∷ notification "n2" "u1" true
      ∷ notification "n3" "u2" false
      ∷ [];
}

marked : mark_as_read list_orm "n2" "u1" inbox ≡ (ok (notification "n2" "u1" true), read_inbox)
unfolding mark_as_read replace
marked = refl

two_unread : get_unread_count reader "u1" inbox ≡ (ok 2, inbox)
unfolding get_unread_count count_where
two_unread = refl

one_unread : get_unread_count reader "u1" read_inbox ≡ (ok 1, read_inbox)
unfolding get_unread_count count_where
one_unread = refl

n1-ne-n2 : ◌≢◌ {A = String} "n1" "n2"
n1-ne-n2 = ground (arith, eq_iff "n1" "n2")

n1-ne-n3 : ◌≢◌ {A = String} "n1" "n3"
n1-ne-n3 = ground (arith, eq_iff "n1" "n3")

n2-ne-n3 : ◌≢◌ {A = String} "n2" "n3"
n2-ne-n3 = ground (arith, eq_iff "n2" "n3")

behind_first :
    (y : Notification)
    → Has y (notification "n2" "u1" false ∷ notification "n3" "u2" false ∷ [])
    → y.id ≢ "n1"
behind_first y (inl e) same = n1-ne-n2 (sym same ∙ ap (λ n. n.id) e)
behind_first y (inr (inl e)) same = n1-ne-n3 (sym same ∙ ap (λ n. n.id) e)
behind_first y (inr (inr m)) same = elim m [ ]

behind_second : (y : Notification) → Has y (notification "n3" "u2" false ∷ []) → y.id ≢ "n2"
behind_second y (inl e) same = n2-ne-n3 (sym same ∙ ap (λ n. n.id) e)
behind_second y (inr m) same = elim m [ ]

behind_third : (y : Notification) → Has y [] → y.id ≢ "n3"
behind_third y m same = elim m [ ]

inbox-HasDistinctIds : HasDistinctIds inbox.notifications
inbox-HasDistinctIds = (behind_first, (behind_second, (behind_third, tt)))

marked_once_example :
    (old : Notification) × Has old inbox.notifications
    × (old.id ≡ "n2")
    × (old.columns.user_id ≡ "u1")
    × (notification "n2" "u1" true
        ≡ record old { columns = record (old.columns) { is_read = true } })
    × ◌≡◌ {A = ℕ} 2 (if old.columns.is_read then 1 else 2)
    × ((other : String)
        → other ≢ "u1"
        → (get_unread_count reader other read_inbox).0 ≡ (get_unread_count reader other inbox).0)
marked_once_example =
    marked_once list_orm reader "n2" "u1" inbox read_inbox (notification "n2" "u1" true) 2 1
      inbox-HasDistinctIds marked two_unread one_unread
