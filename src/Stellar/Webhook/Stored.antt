-- ===== src/Stellar/Webhook/Stored.antt =====
-- What a tip event leaves in the tables: `persistTipEvent` of src/stellar/stellar.service.ts.
use stellar_tip_api.Common.{false, ◌≡◌, ◌≢◌, ap, some, ◌∷◌, ◌∙◌, arith, is_empty, column_is-some}
use stellar_tip_api.Common.Num.{IsPositive}
use stellar_tip_api.Common.Value.{property}
use stellar_tip_api.Http.{ok, bind-inv, require_some-inv, lift-inv-state}
use stellar_tip_api.Entities.{Tip, User, Notification}
use stellar_tip_api.Database.{Database, Has, insert_tip}
use stellar_tip_api.Database.Laws.{insert_tip-inv}
use stellar_tip_api.Notifications.{
  notify_tip_received, notify_tip_received-inv, tip_received_message,
}
use stellar_tip_api.Stellar.Events.{Payload}
use stellar_tip_api.Stellar.Read.Laws.{read_string-set, read_amount-IsPositive}
use stellar_tip_api.Stellar.Webhook.{
  Service, TipEvent, data_of, read_tip, tip_of, store_tip, has_wallet, persist_tip_event,
}

module _ (service : Service) where
  -- What the reader lets through: both wallets given, an amount above zero.
  pub record IsRead (event : TipEvent) : Type 0 where
    pub receiver_set : is_empty event.receiver_wallet ≡ false
    pub sender_set : is_empty event.sender_wallet ≡ false
    pub amount_positive : IsPositive event.amount

  pub read_tip-IsRead :
      (payload : Payload) (event : TipEvent) → read_tip service payload ≡ ok event → IsRead event
  unfolding read_tip
  read_tip-IsRead payload event h =
      let fields = data_of payload in
      record {
        receiver_set = read_string-set (property fields "receiverWallet") _ (ground arith);
        sender_set = read_string-set (property fields "senderWallet") _ (ground arith);
        amount_positive =
            read_amount-IsPositive service.js (property fields "amount") _ (ground arith);
      }

  -- What a tip event that was taken in leaves: one new tip, with the columns that the event says,
  -- and one notification to its creator.
  pub record IsStored (payload : Payload) (db db' : Database) : Type 0 where
    pub event : TipEvent
    pub read : read_tip service payload ≡ ok event
    pub creator : User
    pub registered : Has creator db.users
    pub receives : creator.columns.wallet_address ≡ some event.receiver_wallet
    pub tip : Tip
    pub columns : tip.columns ≡ tip_of service payload creator event
    pub fresh : (x : Tip) → Has x db.tips → x.id ≢ tip.id
    pub notification : Notification
    pub notified : notification.columns.user_id ≡ creator.id
    pub told :
        notification.columns.message ≡ tip_received_message service.js event.amount event.asset
    pub after :
        db' ≡ record db { tips = tip ∷ db.tips; notifications = notification ∷ db.notifications }

  store_tip-IsStored :
      (payload : Payload) (event : TipEvent) (creator : User) (db db' : Database)
      → read_tip service payload ≡ ok event
      → Has creator db.users
      → creator.columns.wallet_address ≡ some event.receiver_wallet
      → store_tip service payload creator event db ≡ (ok tt, db')
      → IsStored payload db db'
  unfolding store_tip tip_of
  store_tip-IsStored payload event creator db db' read m w h =
      let (tip, db1, e1, h1) =
        bind-inv (insert_tip service.orm (tip_of service payload creator event)) _ db h in
      let (columns, after1, fresh) = insert_tip-inv service.orm _ db db1 tip e1 in
      let c = tip.columns in
      let (n, db2, e2, h2) =
        bind-inv
          (notify_tip_received service.js service.orm c.creator_id c.sender_wallet c.amount c.asset)
          _ db1 h1 in
      let (to, message, unread, after2) =
        notify_tip_received-inv service.js service.orm _ _ _ _ db1 db2 n e2 in
      record {
        event = event;
        read = read;
        creator = creator;
        registered = m;
        receives = w;
        tip = tip;
        columns = columns;
        fresh = fresh;
        notification = n;
        notified = to ∙ ap (λ c. c.creator_id) columns;
        told = message ∙ ap (λ c. tip_received_message service.js c.amount c.asset) columns;
        after = ground arith;
      }

  pub persist_tip_event-IsStored :
      (payload : Payload) (db db' : Database)
      → persist_tip_event service payload db ≡ (ok tt, db')
      → IsStored payload db db'
  unfolding persist_tip_event
  persist_tip_event-IsStored payload db db' h =
      let (event, read, h1) = lift-inv-state (read_tip service payload) _ db h in
      let find = service.orm.users.find_one (has_wallet service event.receiver_wallet) db.users in
      let (creator, found, h2) = require_some-inv find _ _ db h1 in
      let (registered, wallet) = service.orm.users.find_one_some _ db.users creator found in
      store_tip-IsStored payload event creator db db' read registered
        (column_is-some creator.columns.wallet_address event.receiver_wallet wallet) h2
