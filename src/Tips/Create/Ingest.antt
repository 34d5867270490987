-- ===== src/Tips/Create/Ingest.antt =====
-- A tip that `createTip` of src/tips/tips.service.ts stored, and the webhook of
-- src/stellar/stellar.service.ts over the same tables.
use stellar_tip_api.Common.{
  ℕ, false, String, ◌≡◌, refl, ap, ◌∙◌, inl, Option, none, some, List, arith, is_empty, eq_refl,
  non_empty,
}
use stellar_tip_api.Http.{ok}
use stellar_tip_api.Entities.{Tip}
use stellar_tip_api.Database.{Database}
use stellar_tip_api.Stellar.Events.{Payload}
use stellar_tip_api.Stellar.Webhook.{Service, handle_contract_webhook}
use stellar_tip_api.Stellar.Webhook.Checks.{IsAuthentic, IsFresh}
use stellar_tip_api.Stellar.Webhook.Effects.{IsKnown, duplicate_ack}
use stellar_tip_api.Stellar.Webhook.Replay.{known_is_duplicate}
use stellar_tip_api.Tips.Create.{TipsService, CreateTipDto, create_tip_request, new_tip}
use stellar_tip_api.Tips.Create.Laws.{IsCreated, tip_is_stored}

non_empty-of : (s : String) → is_empty s ≡ false → non_empty (some s) ≡ some s
non_empty-of s h = rw h refl

module _ (service : Service) (issuer_setting : Option String) where
  -- the tips service beside the webhook, over the same tables
  abbrev pub beside : TipsService
  beside = record { orm = service.orm; usdc_issuer_setting = issuer_setting }

  created-IsKnown :
      (dto : CreateTipDto) (hash : String) (db db' : Database) (tip : Tip)
      → IsCreated beside dto none db db' tip
      → dto.transaction_hash ≡ some hash
      → is_empty hash ≡ false
      → IsKnown service hash db'
  unfolding new_tip
  created-IsKnown dto hash db db' tip made given set =
      let stored : tip.columns.transaction_hash ≡ some hash =
        ap (λ c. c.transaction_hash) made.columns ∙ ap non_empty given ∙ non_empty-of hash set in
      record {
        tip = tip;
        listed = rw made.after (inl refl);
        mentioned = rw stored (ground (arith, eq_refl hash));
      }

  -- Once the endpoint has stored a tip with a transaction hash, every signed and fresh delivery of
  -- the contract's event with that hash is acknowledged as a duplicate and changes nothing.
  pub created_is_duplicate :
      (dto : CreateTipDto) (db db' : Database) (tip : Tip) (now : ℕ) (payload : Payload)
      (raw_body : Option (List ℕ)) (signature : Option String)
      → create_tip_request beside dto db ≡ (ok tip, db')
      → dto.transaction_hash ≡ some payload.transaction_hash
      → is_empty payload.transaction_hash ≡ false
      → IsAuthentic service raw_body signature
      → IsFresh service now payload
      → handle_contract_webhook service now payload raw_body signature db'
        ≡ (ok (duplicate_ack service), db')
  created_is_duplicate dto db db' tip now payload raw_body signature h given set authentic fresh =
      let (made, status) = tip_is_stored beside dto db db' tip h in
      known_is_duplicate service now payload raw_body signature db' authentic fresh set
        (created-IsKnown dto payload.transaction_hash db db' tip made given set)
