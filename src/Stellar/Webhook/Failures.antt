-- ===== src/Stellar/Webhook/Failures.antt =====
-- Deliveries to `handleContractWebhook` of src/stellar/stellar.service.ts that throw.
use stellar_tip_api.Common.{
  ℕ, false, String, ◌≡◌, refl, ap, ◌⊎◌, inl, inr, Option, none, some, List, arith, is_empty,
  Bool-cases, Option-cases,
}
use stellar_tip_api.Common.Value.{property}
use stellar_tip_api.Http.{ok, throws, Exception, bad_request, lift-throws-cases}
use stellar_tip_api.Entities.{Tip}
use stellar_tip_api.Database.{Database}
use stellar_tip_api.Stellar.Events.{Payload}
use stellar_tip_api.Stellar.Read.{read_optional_string}
use stellar_tip_api.Stellar.Read.Laws.{normalize_withdrawal_status-absent}
use stellar_tip_api.Stellar.Webhook.{
  Service, data_of, mentions, linked_tip, uuid_of, record_withdrawal, persist_withdrawal_event,
  is_duplicate_transaction, assert_webhook_signature, assert_event_is_fresh,
  handle_contract_webhook,
}
use stellar_tip_api.Stellar.Webhook.Checks.{IsAuthentic, IsFresh, assert_webhook_signature_sound}
use stellar_tip_api.Stellar.Webhook.Effects.{duplicate_ack}
use stellar_tip_api.Stellar.Webhook.Replay.{known_is_duplicate}
use stellar_tip_api.Stellar.Webhook.HalfStored.{IsHalfStored, half-IsKnown, handle_new_event-Left}

module _ (service : Service) where
  -- A delivery that throws left nothing, or was authentic and half stored its tip.
  pub handle_contract_webhook-Left :
      (now : ℕ) (payload : Payload) (raw_body : Option (List ℕ)) (signature : Option String)
      (db db' : Database) (e : Exception)
      → handle_contract_webhook service now payload raw_body signature db ≡ (throws e, db')
      → (db' ≡ db)
        ⊎ (IsAuthentic service raw_body signature
            × (is_empty payload.transaction_hash ≡ false)
            × IsHalfStored service payload db db')
  unfolding handle_contract_webhook is_duplicate_transaction
  handle_contract_webhook-Left now payload raw_body signature db db' e h =
      elim (lift-throws-cases (assert_webhook_signature service raw_body signature) _ db h) [
        | inl same ↦ inl same
        | inr (x, signed, h1) ↦
            elim (lift-throws-cases (assert_event_is_fresh service now payload) _ db h1) [
              | inl same ↦ inl same
              | inr (y, dated, h2) ↦ elim (Bool-cases (is_empty payload.transaction_hash)) [
                | inl z ↦ inl (ground arith)
                | inr hash ↦
                    elim (Option-cases (
                      service.orm.tips.find_one (mentions service payload.transaction_hash)
                        db.tips)) [
                          | inr (tip, found) ↦ ground arith
                          | inl absent ↦
                              elim (handle_new_event-Left service payload db db'
                                (rw (hash, absent) at h2)) [
                                  | inl same ↦ inl same
                                  | inr half ↦ inr (
                                    assert_webhook_signature_sound service raw_body signature
                                        signed,
                                    hash,
                                    half,
                                  )
                                ]
                        ]
              ]
            ]
      ]

  -- A delivery that throws either changed nothing, or stored the tip and no notification; then
  -- every later delivery of the event while it is fresh is acknowledged as a duplicate, and the
  -- notification is never written.
  pub failed_delivery :
      (now later : ℕ) (payload : Payload) (raw_body : Option (List ℕ)) (signature : Option String)
      (db db' : Database) (e : Exception)
      → handle_contract_webhook service now payload raw_body signature db ≡ (throws e, db')
      → IsFresh service later payload
      → (db' ≡ db)
        ⊎ ((db'.notifications ≡ db.notifications)
            × (handle_contract_webhook service later payload raw_body signature db'
                ≡ (ok (duplicate_ack service), db')))
  failed_delivery now later payload raw_body signature db db' e h fresh =
      elim (handle_contract_webhook-Left now payload raw_body signature db db' e h) [
        | inl same ↦ inl same
        | inr (signed, hash, half) ↦ inr (
          ap (λ d. d.notifications) half.after,
          known_is_duplicate service later payload raw_body signature db' signed fresh hash
              (half-IsKnown service payload db db' half),
        )
      ]

  -- A withdrawal event whose tip is found is refused with 400, and changes nothing, where it gives
  -- no status; the status that the code has for that case is not reached.
  pub absent_status_is_refused :
      (payload : Payload) (db : Database) (tip : Tip) (id uuid : String)
      → read_optional_string (property (data_of payload) "tipId") ≡ some id
      → is_empty id ≡ false
      → service.read_uuid id ≡ some uuid
      → service.orm.tips.find_one
          (linked_tip service
            (some uuid)
            (read_optional_string (property (data_of payload) "tipTransactionHash")))
          db.tips
        ≡ some tip
      → read_optional_string (property (data_of payload) "status") ≡ none
      → persist_withdrawal_event service payload db
        ≡ (throws (bad_request "Unsupported withdrawal status"), db)
  unfolding persist_withdrawal_event record_withdrawal
  absent_status_is_refused payload db tip id uuid given set taken found absent =
      let named : uuid_of service (some id) ≡ ok (some uuid) = rw (uuid_of, taken) refl in
      rw (given, set, named) (rw found (rw (normalize_withdrawal_status-absent _ absent) refl))
