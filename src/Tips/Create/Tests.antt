-- ===== src/Tips/Create/Tests.antt =====
-- `createTip` and `confirmTip` of src/tips/tips.service.ts at concrete requests.
use stellar_tip_api.Common.{ℕ, ◌≡◌, refl, Option, none, some, List, [], ◌∷◌, arith}
use stellar_tip_api.Common.Num.{num}
use stellar_tip_api.Http.{ok, throws, not_found}
use stellar_tip_api.Entities.{Tip, TipAsset, TipStatus, TipWithdrawalStatus}
use stellar_tip_api.Database.{Database}
use stellar_tip_api.Fixtures.{list_orm, empty_database, small_js, wallet_user, plain_crypto}
use stellar_tip_api.Stellar.Events.{Payload, Topic}
use stellar_tip_api.Stellar.Webhook.{Service, handle_contract_webhook}
use stellar_tip_api.Stellar.Webhook.Checks.{IsAuthentic, IsFresh}
use stellar_tip_api.Stellar.Webhook.Effects.{duplicate_ack}
use stellar_tip_api.Tips.Create.{TipsService, CreateTipDto, create_tip_request, confirm_tip}
use stellar_tip_api.Tips.Create.Laws.{IsCreated, HasStatus, tip_is_stored, refused_tip}
use stellar_tip_api.Tips.Create.Ingest.{beside, created_is_duplicate}

abbrev webhook : Service
webhook = record {
  js = small_js;
  crypto = plain_crypto;
  orm = list_orm;
  webhook_secret = some "key";
  usdc_issuer = none;
  read_uuid = λ id. some id;
}

abbrev tips : TipsService
tips = beside webhook none

abbrev request : CreateTipDto
request = record {
  receiver_wallet = "GA";
  sender_wallet = none;
  amount = num 5;
  message = none;
  asset = none;
  asset_issuer = none;
  transaction_hash = some "h1";
}

abbrev with_user : Database
with_user = record empty_database { users = wallet_user "u1" "GA" ∷ [] }

abbrev with_tip : Database
unfolding create_tip_request
with_tip = (create_tip_request tips request with_user).1

abbrev the_tip : Tip
unfolding create_tip_request
the_tip = record {
  id = "x";
  created_at = 0;
  columns = record {
    creator_id = "u1";
    supporter_id = none;
    sender_wallet = "";
    receiver_wallet = "GA";
    amount = num 5;
    asset = TipAsset.xlm;
    asset_issuer = none;
    message = "";
    transaction_hash = some "h1";
    status = TipStatus.completed;
    withdrawal_status = TipWithdrawalStatus.none;
    withdrawal_transaction_hash = none;
  };
}

created : create_tip_request tips request with_user ≡ (ok the_tip, with_tip)
unfolding create_tip_request
created = refl

tip_is_stored_example :
    IsCreated tips request none with_user with_tip the_tip × HasStatus tips the_tip
tip_is_stored_example = tip_is_stored tips request with_user with_tip the_tip created

no_creator :
    create_tip_request tips request empty_database
    ≡ (throws (not_found "Creator not found with this wallet address"), empty_database)
unfolding create_tip_request
no_creator = refl

refused_tip_example : ◌≡◌ {A = Database} empty_database empty_database
refused_tip_example = refused_tip tips request empty_database empty_database _ no_creator

abbrev payload : Payload
payload = record {
  topic = Topic.many ("contract" ∷ "tip" ∷ []);
  transaction_hash = "h1";
  timestamp = "12:00";
  event_data = none;
}

abbrev body : Option (List ℕ)
body = some (123 ∷ 125 ∷ [])

signed : IsAuthentic webhook body (some "mkey")
signed = record {
  secret = "key";
  configured = refl;
  secret_set = refl;
  byte = 123;
  bytes = 125 ∷ [];
  body_given = refl;
  signed = refl;
}

dated : IsFresh webhook 1_200_000 payload
dated = record { time = 1_000_000; dated = refl; not_old = omega arith; not_ahead = omega arith }

created_is_duplicate_example :
    handle_contract_webhook webhook 1_200_000 payload body (some "mkey") with_tip
    ≡ (ok (duplicate_ack webhook), with_tip)
created_is_duplicate_example =
    created_is_duplicate webhook none request with_user with_tip the_tip 1_200_000 payload body
      (some "mkey") created refl refl signed dated

abbrev confirmed_tip_of : Database
unfolding confirm_tip
confirmed_tip_of = (confirm_tip tips "x" "h2" with_tip).1
