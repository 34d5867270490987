-- ===== src/Stellar/Webhook/Tests.antt =====
-- The webhook of src/stellar/stellar.service.ts at concrete deliveries.
use mathlib.Core.Option.{some-injective}
use stellar_tip_api.Common.{
  ◌≢◌, sym, ap, ◌∙◌, ℕ, String, ◌≡◌, inl, refl, ◌⊎◌, Option, none, some, List, [], ◌∷◌, arith, trim,
  eq_iff,
}
use stellar_tip_api.Common.Num.{num}
use stellar_tip_api.Common.Value.{property, Fields, field, end, string, number}
use stellar_tip_api.Http.{Exception, ok, throws, failure, bad_request, unauthorized}
use stellar_tip_api.Database.{Orm, Database, replace}
use stellar_tip_api.Fixtures.{
  full_repository, list_orm, empty_database, small_js, wallet_user, plain_crypto,
}
use stellar_tip_api.Notifications.{notify_tip_received}
use stellar_tip_api.Stellar.Events.{Payload, Topic, normalize_contract_event_topic}
use stellar_tip_api.Stellar.Read.{read_amount, normalize_asset, normalize_withdrawal_status}
use stellar_tip_api.Stellar.Webhook.{
  Service, assert_webhook_signature, assert_event_is_fresh, is_duplicate_transaction, read_tip,
  store_tip, persist_tip_event, persist_withdrawal_event, handle_new_event, handle_contract_webhook,
}
use stellar_tip_api.Stellar.Webhook.Checks.{IsAuthentic, IsFresh}
use stellar_tip_api.Stellar.Webhook.Refusals.{unaccepted_delivery}
use stellar_tip_api.Stellar.Webhook.Effects.{fresh_ack, duplicate_ack}
use stellar_tip_api.Stellar.Webhook.Replay.{redelivery}
use stellar_tip_api.Stellar.Webhook.Failures.{failed_delivery}

-- All that a delivery runs through.
webhook : Unit {0}
unfolding handle_contract_webhook assert_webhook_signature assert_event_is_fresh
    is_duplicate_transaction read_tip store_tip persist_tip_event persist_withdrawal_event
    handle_new_event read_amount normalize_asset normalize_withdrawal_status
    normalize_contract_event_topic notify_tip_received replace property trim
webhook = tt

abbrev service_of : Orm → Service
service_of orm = record {
  js = small_js;
  crypto = plain_crypto;
  orm = orm;
  webhook_secret = some "key";
  usdc_issuer = none;
  read_uuid = λ id. some id;
}

abbrev service : Service
service = service_of list_orm

abbrev tip_fields : Fields
tip_fields =
    field "receiverWallet" (string " GA ")
      (field "senderWallet" (string "GB") (field "amount" (number (num 5)) end))

abbrev tip_payload : Payload
tip_payload = record {
  topic = Topic.many ("contract" ∷ "tip" ∷ []);
  transaction_hash = "h1";
  timestamp = "12:00";
  event_data = some tip_fields;
}

abbrev body : Option (List ℕ)
body = some (123 ∷ 125 ∷ [])

abbrev with_user : Database
with_user = record empty_database { users = wallet_user "u1" "GA" ∷ [] }

abbrev first_delivery : Database
unfolding webhook
first_delivery =
    (handle_contract_webhook service 1_000_100 tip_payload body (some "mkey") with_user).1

delivered :
    handle_contract_webhook service 1_000_100 tip_payload body (some "mkey") with_user
    ≡ (ok (fresh_ack service), first_delivery)
unfolding webhook
delivered = refl

later-IsFresh : IsFresh service 1_200_000 tip_payload
later-IsFresh = record {
  time = 1_000_000;
  dated = refl;
  not_old = omega arith;
  not_ahead = omega arith;
}

redelivery_example :
    (handle_contract_webhook service 1_200_000 tip_payload body (some "mkey") first_delivery
      ≡ (ok (duplicate_ack service), first_delivery))
    ⊎ ((first_delivery ≡ with_user)
        × (handle_contract_webhook service 1_200_000 tip_payload body (some "mkey") first_delivery
            ≡ (ok (fresh_ack service), first_delivery)))
redelivery_example =
    redelivery service 1_000_100 1_200_000 tip_payload body (some "mkey") with_user first_delivery
      (fresh_ack service) delivered later-IsFresh

x-ne-mkey : ◌≢◌ {A = String} "x" "mkey"
x-ne-mkey = ground (arith, eq_iff "x" "mkey")

forged : IsAuthentic service body (some "x") → ⊥
forged a = x-ne-mkey (
    some-injective _ _ (
      a.signed
      ∙ ap (λ secret. some (plain_crypto.hmac_sha256_hex secret (a.byte ∷ a.bytes)))
          (sym (some-injective _ _ a.configured))))

unaccepted_delivery_example :
    ((m : String) × (handle_contract_webhook service 1_000_100 tip_payload body (some "x") with_user
        ≡ (throws (unauthorized m), with_user)))
    ⊎ (IsAuthentic service body (some "x")
        × ((e : Exception) × (handle_contract_webhook service 1_000_100 tip_payload body
                (some "x")
                with_user
              ≡ (throws e, with_user))))
unaccepted_delivery_example =
    unaccepted_delivery service 1_000_100 tip_payload body (some "x") with_user (inl forged)

-- A service whose table of notifications is full.
abbrev full_service : Service
full_service = service_of (record list_orm { notifications = full_repository })

abbrev half_delivery : Database
unfolding webhook
half_delivery =
    (handle_contract_webhook full_service 1_000_100 tip_payload body (some "mkey") with_user).1

half_delivered :
    handle_contract_webhook full_service 1_000_100 tip_payload body (some "mkey") with_user
    ≡ (throws failure, half_delivery)
unfolding webhook
half_delivered = refl

later-IsFresh_full : IsFresh full_service 1_200_000 tip_payload
later-IsFresh_full = record {
  time = 1_000_000;
  dated = refl;
  not_old = omega arith;
  not_ahead = omega arith;
}

failed_delivery_example :
    (half_delivery ≡ with_user)
    ⊎ ((half_delivery.notifications ≡ with_user.notifications)
        × (handle_contract_webhook full_service 1_200_000 tip_payload body
              (some "mkey")
              half_delivery
            ≡ (ok (duplicate_ack full_service), half_delivery)))
failed_delivery_example =
    failed_delivery full_service 1_000_100 1_200_000 tip_payload body (some "mkey") with_user
      half_delivery failure half_delivered later-IsFresh_full

abbrev withdrawal_payload : Payload
withdrawal_payload = record {
  topic = Topic.one "withdrawal";
  transaction_hash = "h2";
  timestamp = "12:00";
  event_data = some (field "tipId" (string "x") end);
}

no_status :
    (handle_contract_webhook service 1_000_100 withdrawal_payload body
      (some "mkey")
      first_delivery).0
    ≡ throws (bad_request "Unsupported withdrawal status")
unfolding webhook
no_status = refl
