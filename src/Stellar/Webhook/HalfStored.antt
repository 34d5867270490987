-- ===== src/Stellar/Webhook/HalfStored.antt =====
-- What `handleContractWebhook` of src/stellar/stellar.service.ts can leave where it throws after its
-- checks: nothing, or the event's tip with no notification.
use stellar_tip_api.Common.{
  not, ◌&&◌, String, ◌==◌, ◌≡◌, refl, ◌∙◌, ◌⊎◌, inl, inr, Option, none, some, ◌∷◌, arith,
  Bool-cases, eq_refl, truthy,
}
use stellar_tip_api.Common.Value.{property}
use stellar_tip_api.Http.{
  throws, Exception, bind-throws-cases, lift-throws-cases, require_some-throws-cases,
}
use stellar_tip_api.Entities.{Tip, User}
use stellar_tip_api.Database.{Database, insert_tip, update_tip}
use stellar_tip_api.Database.Laws.{
  insert_tip-inv, insert_tip-throws, insert_notification-throws, update_tip-throws,
}
use stellar_tip_api.Notifications.{notify_tip_received}
use stellar_tip_api.Stellar.Events.{
  Payload, tip_event, withdrawal_event, register_event, normalize_contract_event_topic,
}
use stellar_tip_api.Stellar.Read.{read_optional_string, normalize_withdrawal_status}
use stellar_tip_api.Stellar.Webhook.{
  Service, TipEvent, data_of, tip_of, read_tip, has_wallet, store_tip, persist_tip_event, uuid_of,
  record_withdrawal, persist_withdrawal_event, dispatch, handle_new_event,
}
use stellar_tip_api.Stellar.Webhook.Effects.{IsKnown}
use stellar_tip_api.Stellar.Webhook.Withdrawn.{withdrawn}

module _ (service : Service) where
  -- The event's tip is stored, and nothing else changed.
  pub record IsHalfStored (payload : Payload) (db db' : Database) : Type 0 where
    pub creator : User
    pub event : TipEvent
    pub tip : Tip
    pub columns : tip.columns ≡ tip_of service payload creator event
    pub after : db' ≡ record db { tips = tip ∷ db.tips }

  -- What a delivery that threw can have left: nothing, or a tip of its hash with no notification.
  abbrev pub Left : Payload → Database → Database → Type 0
  Left payload db db' = (db' ≡ db) ⊎ IsHalfStored payload db db'

  pub half-IsKnown :
      (payload : Payload) (db db' : Database)
      → IsHalfStored payload db db'
      → IsKnown service payload.transaction_hash db'
  unfolding tip_of
  half-IsKnown payload db db' half = record {
    tip = half.tip;
    listed = rw half.after (inl refl);
    mentioned = rw half.columns (ground (arith, eq_refl payload.transaction_hash));
  }

  store_tip-Left :
      (payload : Payload) (creator : User) (event : TipEvent) (db db' : Database) {e : Exception}
      → store_tip service payload creator event db ≡ (throws e, db')
      → Left payload db db'
  unfolding store_tip notify_tip_received tip_of
  store_tip-Left payload creator event db db' h =
      elim (bind-throws-cases (insert_tip service.orm (tip_of service payload creator event)) _ db
        h) [
          | inl refused ↦ inl (insert_tip-throws service.orm _ db db' refused)
          | inr (tip, db1, inserted, h1) ↦
              let (columns, after, fresh) = insert_tip-inv service.orm _ db db1 tip inserted in
              let c = tip.columns in
              elim (bind-throws-cases
                (notify_tip_received service.js service.orm c.creator_id c.sender_wallet c.amount
                  c.asset)
                _ db1 h1) [
                  | inl refused ↦
                      let same = insert_notification-throws service.orm _ db1 db' refused in
                      inr (record {
                        creator = creator;
                        event = event;
                        tip = tip;
                        columns = columns;
                        after = same ∙ after;
                      })
                  | inr (n, db2, told, h2) ↦ ground arith
                ]
        ]

  persist_tip_event-Left :
      (payload : Payload) (db db' : Database) {e : Exception}
      → persist_tip_event service payload db ≡ (throws e, db')
      → Left payload db db'
  unfolding persist_tip_event
  persist_tip_event-Left payload db db' h =
      elim (lift-throws-cases (read_tip service payload) _ db h) [
        | inl same ↦ inl same
        | inr (event, read, h1) ↦
            elim (require_some-throws-cases
              (service.orm.users.find_one (has_wallet service event.receiver_wallet) db.users) _ _
              db h1) [
                | inl same ↦ inl same
                | inr (creator, found, h2) ↦ store_tip-Left payload creator event db db' h2
              ]
      ]

  record_withdrawal-throws :
      (payload : Payload) (found : Option Tip) (db db' : Database) {e : Exception}
      → record_withdrawal service payload found db ≡ (throws e, db')
      → db' ≡ db
  unfolding record_withdrawal
  record_withdrawal-throws payload none db db' h = ground arith
  record_withdrawal-throws payload (some tip) db db' h =
      elim (lift-throws-cases (normalize_withdrawal_status (property (data_of payload) "status")) _
        db h) [
          | inl same ↦ same
          | inr (status, read, h1) ↦
              elim (bind-throws-cases
                (update_tip service.orm (withdrawn service payload status tip)) _ db h1) [
                  | inl refused ↦ update_tip-throws service.orm _ db db' refused
                  | inr (saved, db1, done, h2) ↦ ground arith
                ]
        ]

  persist_withdrawal_event-throws :
      (payload : Payload) (db db' : Database) {e : Exception}
      → persist_withdrawal_event service payload db ≡ (throws e, db')
      → db' ≡ db
  unfolding persist_withdrawal_event
  persist_withdrawal_event-throws payload db db' h =
      let id = read_optional_string (property (data_of payload) "tipId") in
      let hash = read_optional_string (property (data_of payload) "tipTransactionHash") in
      elim (Bool-cases (not (truthy id) && not (truthy hash))) [
        | inl t ↦ ground arith
        | inr t ↦ elim (lift-throws-cases (uuid_of service id) _ db (rw t at h)) [
          | inl same ↦ same
          | inr (linked_id, named, h1) ↦ record_withdrawal-throws payload _ db db' h1
        ]
      ]

  dispatch-Left :
      (payload : Payload) (topic : Option String) (db db' : Database) {e : Exception}
      → dispatch service payload topic db ≡ (throws e, db')
      → Left payload db db'
  unfolding dispatch
  dispatch-Left payload none db db' h = inl (ground arith)
  dispatch-Left payload (some topic) db db' h = elim (Bool-cases (topic == tip_event)) [
    | inl t ↦ persist_tip_event-Left payload db db' (rw t at h)
    | inr t ↦ elim (Bool-cases (topic == withdrawal_event)) [
      | inl w ↦ inl (persist_withdrawal_event-throws payload db db' (rw (t, w) at h))
      | inr w ↦ elim (Bool-cases (topic == register_event)) [
        | inl r ↦ ground arith
        | inr r ↦ inl (ground arith)
      ]
    ]
  ]

  pub handle_new_event-Left :
      (payload : Payload) (db db' : Database) {e : Exception}
      → handle_new_event service payload db ≡ (throws e, db')
      → Left payload db db'
  unfolding handle_new_event
  handle_new_event-Left payload db db' h =
      let topic = normalize_contract_event_topic payload.topic in
      elim (bind-throws-cases (dispatch service payload topic) _ db h) [
        | inl t ↦ dispatch-Left payload topic db db' t
        | inr (done, db1, t, h1) ↦ ground arith
      ]
