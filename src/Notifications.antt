-- ===== src/Notifications.antt =====
-- src/notifications/notifications.service.ts
pub mod Inbox
use Prim.Native.String
use stellar_tip_api.Common.{true, false, ◌&&◌, String, ◌==◌, Option, some, ◌≡◌, ap, ◌∷◌}
use stellar_tip_api.Common.Num.{Num}
use stellar_tip_api.Common.Value.{Fields, field, end, number, string}
use stellar_tip_api.Common.Runtime.{Js}
use stellar_tip_api.Http.{ok, Action, not_found, require_some, ◌>>=◌}
use stellar_tip_api.Entities.{
  Notification, NotificationType, tip_received, discrepancy_detected, TipAsset, asset_name,
}
use stellar_tip_api.Database.{
  Orm, Database, find_notification, insert_notification, update_notification,
}
use stellar_tip_api.Database.Laws.{insert_notification-inv}

module _ (orm : Orm) where
  -- `metadata || null`: an object is never falsy, so that only an absent one becomes null
  unfoldable pub create_notification :
      String → NotificationType → String → String → Option Fields → Action Database Notification
  create_notification user_id kind title message metadata = insert_notification orm (record {
    user_id = user_id;
    kind = kind;
    title = title;
    message = message;
    is_read = false;
    metadata = metadata;
  })

  unfoldable pub mark_as_read : String → String → Action Database Notification
  mark_as_read notification_id user_id = do
    found ← find_notification orm (λ n. n.id == notification_id && n.columns.user_id == user_id)
    notification ← require_some found (not_found "Notification not found")
    update_notification orm
        (record notification { columns = record (notification.columns) { is_read = true } })

-- The message of `notifyTipReceived`.
unfoldable pub tip_received_message : Js → Num → TipAsset → String
tip_received_message js amount asset =
    String.◌++◌ "You received a tip of "
      (String.◌++◌ (js.string_of_num amount) (String.◌++◌ " " (asset_name asset)))

unfoldable pub notify_tip_received :
    Js → Orm → String → String → Num → TipAsset → Action Database Notification
unfolding create_notification tip_received_message
notify_tip_received js orm creator_id sender_wallet amount asset =
    create_notification orm creator_id tip_received "Tip Received"
      (tip_received_message js amount asset)
      (some (
        field "senderWallet" (string sender_wallet)
          (field "amount" (number amount) (field "asset" (string (asset_name asset)) end))))

unfoldable pub notify_discrepancy_detected : Orm → String → Fields → Action Database Notification
unfolding create_notification
notify_discrepancy_detected orm creator_id metadata =
    create_notification orm creator_id discrepancy_detected "On-chain discrepancy detected"
      "A tip verification mismatch was detected between Horizon and the Soroban contract."
      (some metadata)

-- A tip's notification that was stored goes unread to the creator.
pub notify_tip_received-inv :
    (js : Js) (orm : Orm) (creator_id sender_wallet : String) (amount : Num) (asset : TipAsset)
    (db db' : Database) (n : Notification)
    → notify_tip_received js orm creator_id sender_wallet amount asset db ≡ (ok n, db')
    → (n.columns.user_id ≡ creator_id)
      × (n.columns.message ≡ tip_received_message js amount asset)
      × (n.columns.is_read ≡ false)
      × (db' ≡ record db { notifications = n ∷ db.notifications })
unfolding notify_tip_received
notify_tip_received-inv js orm creator_id sender_wallet amount asset db db' n h =
    let (columns, after) = insert_notification-inv orm _ db db' n h in
    (ap (λ c. c.user_id) columns, ap (λ c. c.message) columns, ap (λ c. c.is_read) columns, after)

-- A discrepancy that was stored goes to the creator.
pub notify_discrepancy_detected-inv :
    (orm : Orm) (creator_id : String) (metadata : Fields) (db db' : Database) (n : Notification)
    → notify_discrepancy_detected orm creator_id metadata db ≡ (ok n, db')
    → (n.columns.user_id ≡ creator_id)
      × (n.columns.kind ≡ discrepancy_detected)
      × (db' ≡ record db { notifications = n ∷ db.notifications })
unfolding notify_discrepancy_detected
notify_discrepancy_detected-inv orm creator_id metadata db db' n h =
    let (columns, after) = insert_notification-inv orm _ db db' n h in
    (ap (λ c. c.user_id) columns, ap (λ c. c.kind) columns, after)
