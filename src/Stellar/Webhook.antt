-- ===== src/Stellar/Webhook.antt =====
-- The webhook of src/stellar/stellar.service.ts: `handleContractWebhook`, its checks, and what it
-- persists. `Service` holds what the service is constructed with; `now` is `Date.now()`.
pub mod Checks
pub mod Refusals
pub mod Stored
pub mod Withdrawn
pub mod Effects
pub mod Replay
pub mod HalfStored
pub mod Failures
mod Tests
use stellar_tip_api.Common.{
  ℕ, ◌+◌, ◌-◌, ◌*◌, Bool, true, false, not, ◌&&◌, ◌||◌, String, ◌==◌, Option, none, some, List, [],
  ◌∷◌, ltb, eqb, if◌then◌else◌, is_empty, truthy, non_empty, or_else, or_text, column_is,
}
use stellar_tip_api.Common.Num.{Num}
use stellar_tip_api.Common.Value.{Fields, end, property}
use stellar_tip_api.Common.Runtime.{Js, Crypto}
use stellar_tip_api.Http.{
  Result, ok, throws, bad_request, unauthorized, not_found, failure, Action, pure, throw, lift,
  and_then, require_some, ◌>>=◌, ◌>>◌,
}
use stellar_tip_api.Entities.{
  Tip, TipAsset, User, TipColumns, TipStatus, TipWithdrawalStatus, is_usdc,
}
use stellar_tip_api.Database.{Orm, Database, find_user, find_tip, insert_tip, update_tip}
use stellar_tip_api.Notifications.{notify_tip_received}
use stellar_tip_api.Stellar.Events.{
  Payload, tip_event, withdrawal_event, register_event, normalize_contract_event_topic,
}
use stellar_tip_api.Stellar.Read.{
  read_string, read_optional_string, read_amount, normalize_asset, normalize_withdrawal_status,
}

pub record Service : Type 0 where
  pub js : Js
  pub crypto : Crypto
  pub orm : Orm
  pub webhook_secret : Option String
  pub usdc_issuer : Option String
  -- what Postgres reads a text as where it compares it with a uuid; a text that is none is refused
  pub read_uuid : String → Option String

-- `{ accepted: true, duplicate }`
pub record Ack : Type 0 where
  pub accepted : Bool
  pub duplicate : Bool

abbrev pub max_event_age_ms : ℕ
max_event_age_ms = 5 * 60 * 1000

-- What a tip event says.
pub record TipEvent : Type 0 where
  pub receiver_wallet : String
  pub sender_wallet : String
  pub asset : TipAsset
  pub amount : Num
  pub message : Option String
  pub asset_issuer : Option String

-- `payload.data || {}`
abbrev pub data_of : Payload → Fields
data_of payload = elim (payload.event_data) [ none ↦ end | some fields ↦ fields ]

abbrev pub length : List ℕ → ℕ
length [] = 0
length (b ∷ bs) = 1 + length bs

invalid_signature : Result (Unit {0})
invalid_signature = throws (unauthorized "Invalid webhook signature")

module _ (service : Service) where
  -- the comparison of the digest with the header, byte by byte
  pub signature_matches : String → List ℕ → String → Bool
  signature_matches secret raw_body signature =
      let expected = service.crypto.utf8 (service.crypto.hmac_sha256_hex secret raw_body) in
      let actual = service.crypto.utf8 signature in
      eqb (length expected) (length actual) && service.crypto.timing_safe_equal expected actual

  pub compare_signature : String → Option (List ℕ) → Option String → Result (Unit {0})
  compare_signature secret (some (b ∷ bs)) (some signature) =
      if is_empty signature || not (signature_matches secret (b ∷ bs) signature)
      then invalid_signature
      else ok tt
  compare_signature secret raw_body signature = invalid_signature

  pub check_signature : Option String → Option (List ℕ) → Option String → Result (Unit {0})
  check_signature none raw_body signature = throws (unauthorized "Webhook secret is not configured")
  check_signature (some secret) raw_body signature =
      if is_empty secret
      then throws (unauthorized "Webhook secret is not configured")
      else compare_signature secret raw_body signature

  pub assert_webhook_signature : Option (List ℕ) → Option String → Result (Unit {0})
  unfolding signature_matches compare_signature check_signature invalid_signature
  assert_webhook_signature raw_body signature =
      check_signature service.webhook_secret raw_body signature

  pub check_age : ℕ → Option ℕ → Result (Unit {0})
  check_age now none = throws (bad_request "Invalid event timestamp")
  check_age now (some time) =
      if ltb max_event_age_ms ((now - time) + (time - now))
      then throws (unauthorized "Webhook event is outside replay window")
      else ok tt

  pub assert_event_is_fresh : ℕ → Payload → Result (Unit {0})
  unfolding check_age
  assert_event_is_fresh now payload = check_age now (service.js.parse_date payload.timestamp)

  -- the `where` of `isDuplicateTransaction`: the hash is a tip's or a withdrawal's
  abbrev pub mentions : String → Tip → Bool
  mentions hash tip =
      column_is tip.columns.transaction_hash hash
      || column_is tip.columns.withdrawal_transaction_hash hash

  pub is_duplicate_transaction : String → Action Database Bool
  is_duplicate_transaction transaction_hash =
      if is_empty transaction_hash then throw (bad_request "transactionHash is required") else do
        existing ← find_tip service.orm (mentions transaction_hash)
        pure (elim existing [ none ↦ false | some tip ↦ true ])

  -- the fields that `persistTipEvent` reads, in the order of its reads
  pub read_tip : Payload → Result TipEvent
  read_tip payload =
      let fields = data_of payload in
      and_then (read_string (property fields "receiverWallet")) λ receiver_wallet.
        and_then (read_string (property fields "senderWallet")) λ sender_wallet.
          and_then (normalize_asset (property fields "asset")) λ asset.
            and_then (read_amount service.js (property fields "amount")) λ amount. ok (record {
              receiver_wallet = receiver_wallet;
              sender_wallet = sender_wallet;
              asset = asset;
              amount = amount;
              message = read_optional_string (property fields "message");
              asset_issuer = read_optional_string (property fields "assetIssuer");
            })

  -- the new `Tip` of `persistTipEvent`
  unfoldable pub tip_of : Payload → User → TipEvent → TipColumns
  tip_of payload creator event = record {
    creator_id = creator.id;
    supporter_id = none;
    sender_wallet = event.sender_wallet;
    receiver_wallet = event.receiver_wallet;
    amount = event.amount;
    asset = event.asset;
    asset_issuer =
        if is_usdc event.asset
        then or_else event.asset_issuer (non_empty service.usdc_issuer)
        else none;
    message = or_text event.message "";
    transaction_hash = some payload.transaction_hash;
    status = TipStatus.completed;
    withdrawal_status = TipWithdrawalStatus.none;
    withdrawal_transaction_hash = none;
  }

  pub store_tip : Payload → User → TipEvent → Action Database (Unit {0})
  unfolding tip_of
  store_tip payload creator event = do
    saved ← insert_tip service.orm (tip_of payload creator event)
    notify_tip_received service.js service.orm saved.columns.creator_id saved.columns.sender_wallet
        saved.columns.amount saved.columns.asset
    pure tt

  abbrev pub has_wallet : String → User → Bool
  has_wallet wallet u = column_is u.columns.wallet_address wallet

  pub persist_tip_event : Payload → Action Database (Unit {0})
  persist_tip_event payload = do
    event ← lift (read_tip payload)
    found ← find_user service.orm (has_wallet event.receiver_wallet)
    creator ← require_some found (not_found "Creator not found with this wallet address")
    store_tip payload creator event

  -- the `where` of `persistWithdrawalEvent`
  abbrev pub linked_tip : Option String → Option String → Tip → Bool
  linked_tip (some id) hash tip = tip.id == id
  linked_tip none (some hash) tip = column_is tip.columns.transaction_hash hash
  linked_tip none none tip = false

  -- a `tipId` as the database takes it
  unfoldable pub uuid_of : Option String → Result (Option String)
  uuid_of none = ok none
  uuid_of (some id) = elim (service.read_uuid id) [
    | none ↦ throws failure
    | some uuid ↦ ok (some uuid)
  ]

  -- A tip that is not found is logged and passed over.
  pub record_withdrawal : Payload → Option Tip → Action Database (Unit {0})
  record_withdrawal payload none = pure tt
  record_withdrawal payload (some tip) = do
    status ← lift (normalize_withdrawal_status (property (data_of payload) "status"))
    update_tip service.orm (record tip {
      columns = record (tip.columns) {
        withdrawal_status = status;
        withdrawal_transaction_hash = some payload.transaction_hash;
      };
    })
    pure tt

  pub persist_withdrawal_event : Payload → Action Database (Unit {0})
  unfolding record_withdrawal uuid_of
  persist_withdrawal_event payload =
      let linked_tip_id = read_optional_string (property (data_of payload) "tipId") in
      let linked_hash = read_optional_string (property (data_of payload) "tipTransactionHash") in
      if not (truthy linked_tip_id) && not (truthy linked_hash) then pure tt else do
        linked_id ← lift (uuid_of linked_tip_id)
        found ← find_tip service.orm (linked_tip linked_id linked_hash)
        record_withdrawal payload found

  -- the switch on the topic
  pub dispatch : Payload → Option String → Action Database (Unit {0})
  dispatch payload none = throw (bad_request "Unsupported contract event topic")
  dispatch payload (some topic) =
      if topic == tip_event
      then persist_tip_event payload
      else if topic == withdrawal_event
      then persist_withdrawal_event payload
      else if topic == register_event
      then pure tt
      else throw (bad_request "Unsupported contract event topic")

  pub handle_new_event : Payload → Action Database Ack
  unfolding dispatch
  handle_new_event payload = do
    dispatch payload (normalize_contract_event_topic payload.topic)
    pure (record { accepted = true; duplicate = false })

  pub handle_contract_webhook : ℕ → Payload → Option (List ℕ) → Option String → Action Database Ack
  unfolding handle_new_event is_duplicate_transaction
  handle_contract_webhook now payload raw_body signature = do
    lift (assert_webhook_signature raw_body signature)
    lift (assert_event_is_fresh now payload)
    duplicate ← is_duplicate_transaction payload.transaction_hash
    if duplicate
        then pure (record { accepted = true; duplicate = true })
        else handle_new_event payload
