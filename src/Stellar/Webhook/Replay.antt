-- ===== src/Stellar/Webhook/Replay.antt =====
-- Deliveries to `handleContractWebhook` of src/stellar/stellar.service.ts, one and two of the same
-- event.
use stellar_tip_api.Common.{
  ℕ, true, false, String, ◌≡◌, refl, sym, ap, ◌∙◌, ◌⊎◌, inl, inr, Option, List, arith, is_empty,
  Bool-cases, Option-cases, if◌then◌else◌, column_is, eq_refl,
}
use stellar_tip_api.Http.{ok, pure, Action, ◌>>=◌, lift-inv-state}
use stellar_tip_api.Entities.{Tip}
use stellar_tip_api.Database.{Database, Has}
use stellar_tip_api.Database.Laws.{Has-replace_self}
use stellar_tip_api.Stellar.Events.{Payload}
use stellar_tip_api.Stellar.Webhook.{
  Service, Ack, mentions, tip_of, handle_new_event, is_duplicate_transaction,
  assert_webhook_signature, assert_event_is_fresh, handle_contract_webhook,
}
use stellar_tip_api.Stellar.Webhook.Checks.{
  IsAuthentic, IsFresh, assert_webhook_signature_sound, assert_event_is_fresh_iff,
}
use stellar_tip_api.Stellar.Webhook.Refusals.{checked_is_handled}
use stellar_tip_api.Stellar.Webhook.Stored.{IsStored}
use stellar_tip_api.Stellar.Webhook.Withdrawn.{withdrawn, IsWithdrawn}
use stellar_tip_api.Stellar.Webhook.Effects.{
  fresh_ack, duplicate_ack, IsKnown, Effect, tipped, withdrew, passed_over, registered,
  handle_new_event-Effect,
}

module _ (service : Service) where
  -- What the answer to a delivery says of the tables.
  pub data Outcome (payload : Payload) (db db' : Database) (ack : Ack) : Type 0 where
    repeated :
        IsKnown service payload.transaction_hash db
        → ack ≡ duplicate_ack service
        → db' ≡ db
        → Outcome payload db db' ack
    processed :
        ((tip : Tip) → Has tip db.tips → mentions service payload.transaction_hash tip ≡ false)
        → ack ≡ fresh_ack service
        → Effect service payload db db'
        → Outcome payload db db' ack

  after_checks : Payload → Action Database Ack
  after_checks payload = do
    duplicate ← is_duplicate_transaction service payload.transaction_hash
    if duplicate
        then pure (record { accepted = true; duplicate = true })
        else handle_new_event service payload

  after_checks-Outcome :
      (payload : Payload) (db db' : Database) (ack : Ack)
      → after_checks payload db ≡ (ok ack, db')
      → (is_empty payload.transaction_hash ≡ false) × Outcome payload db db' ack
  unfolding after_checks is_duplicate_transaction
  after_checks-Outcome payload db db' ack h =
      let hash = payload.transaction_hash in
      let search_for = service.orm.tips.find_one (mentions service hash) db.tips in
      elim (Bool-cases (is_empty hash)) [
        | inl e ↦ ground arith
        | inr e ↦ (
          e,
          elim (Option-cases search_for) [
            | inl absent ↦
                let (same, effect) =
                  handle_new_event-Effect service payload db db' {ack = ack}
                    (rw (e, absent) at h) in
                processed (λ tip m. service.orm.tips.find_one_none _ db.tips tip absent m) same
                  effect
            | inr (tip, found) ↦
                let (listed, mentioned) = service.orm.tips.find_one_some _ db.tips tip found in
                repeated (record { tip = tip; listed = listed; mentioned = mentioned })
                  (ground arith) (ground arith)
          ],
        )
      ]

  pub accepted_delivery :
      (now : ℕ) (payload : Payload) (raw_body : Option (List ℕ)) (signature : Option String)
      (db db' : Database) (ack : Ack)
      → handle_contract_webhook service now payload raw_body signature db ≡ (ok ack, db')
      → IsAuthentic service raw_body signature
        × IsFresh service now payload
        × (is_empty payload.transaction_hash ≡ false)
        × Outcome payload db db' ack
  unfolding handle_contract_webhook after_checks
  accepted_delivery now payload raw_body signature db db' ack h =
      let (x, signed, h1) =
        lift-inv-state (assert_webhook_signature service raw_body signature) _ db h in
      let (y, dated, h2) = lift-inv-state (assert_event_is_fresh service now payload) _ db h1 in
      let (hash, outcome) = after_checks-Outcome payload db db' ack h2 in
      (
        assert_webhook_signature_sound service raw_body signature signed,
        (assert_event_is_fresh_iff service now payload).0 dated,
        hash,
        outcome,
      )

  stored-IsKnown :
      (payload : Payload) (db db' : Database)
      → IsStored service payload db db'
      → IsKnown service payload.transaction_hash db'
  unfolding tip_of
  stored-IsKnown payload db db' s = record {
    tip = s.tip;
    listed = rw s.after (inl refl);
    mentioned = rw s.columns (ground (arith, eq_refl payload.transaction_hash));
  }

  withdrawn-IsKnown :
      (payload : Payload) (db db' : Database)
      → IsWithdrawn service payload db db'
      → IsKnown service payload.transaction_hash db'
  withdrawn-IsKnown payload db db' w = record {
    tip = withdrawn service payload w.status w.tip;
    listed = rw w.after (Has-replace_self _ w.tip db.tips w.listed refl);
    mentioned = ground (
      arith,
      eq_refl payload.transaction_hash,
      Bool-cases (column_is w.tip.columns.transaction_hash payload.transaction_hash),
    );
  }

  Effect-cases :
      (payload : Payload) (db db' : Database)
      → Effect service payload db db'
      → IsKnown service payload.transaction_hash db' ⊎ (db' ≡ db)
  Effect-cases payload db db' (tipped t s) = inl (stored-IsKnown payload db db' s)
  Effect-cases payload db db' (withdrew t w) = inl (withdrawn-IsKnown payload db db' w)
  Effect-cases payload db db' (passed_over t u e) = inr e
  Effect-cases payload db db' (registered t e) = inr e

  Outcome-cases :
      (payload : Payload) (db db' : Database) (ack : Ack)
      → Outcome payload db db' ack
      → IsKnown service payload.transaction_hash db' ⊎ (db' ≡ db)
  Outcome-cases payload db db' ack (repeated k a e) = inr e
  Outcome-cases payload db db' ack (processed n a e) = Effect-cases payload db db' e

  -- A signed and fresh delivery of a hash that some tip has is acknowledged as a duplicate, and
  -- changes nothing.
  pub known_is_duplicate :
      (now : ℕ) (payload : Payload) (raw_body : Option (List ℕ)) (signature : Option String)
      (db : Database)
      → IsAuthentic service raw_body signature
      → IsFresh service now payload
      → is_empty payload.transaction_hash ≡ false
      → IsKnown service payload.transaction_hash db
      → handle_contract_webhook service now payload raw_body signature db
        ≡ (ok (duplicate_ack service), db)
  unfolding is_duplicate_transaction
  known_is_duplicate now payload raw_body signature db a f hash k =
      rw (checked_is_handled service now payload raw_body signature a f)
        (elim (Option-cases
          (service.orm.tips.find_one (mentions service payload.transaction_hash) db.tips)) [
            | inl absent ↦ ground (
              arith,
              service.orm.tips.find_one_none (mentions service payload.transaction_hash) db.tips
                  k.tip absent k.listed,
              k.mentioned,
            )
            | inr (tip, found) ↦ rw (hash, found) refl
          ])

  -- An event whose delivery was acknowledged, and which is delivered again as the next request and
  -- while it is fresh, changes nothing any more: it is acknowledged as a duplicate or, where the
  -- first delivery wrote nothing, answered as the first was.
  pub redelivery :
      (now later : ℕ) (payload : Payload) (raw_body : Option (List ℕ)) (signature : Option String)
      (db db' : Database) (ack : Ack)
      → handle_contract_webhook service now payload raw_body signature db ≡ (ok ack, db')
      → IsFresh service later payload
      → (handle_contract_webhook service later payload raw_body signature db'
          ≡ (ok (duplicate_ack service), db'))
        ⊎ ((db' ≡ db)
            × (handle_contract_webhook service later payload raw_body signature db'
                ≡ (ok ack, db')))
  redelivery now later payload raw_body signature db db' ack h fresh =
      let (a, f, hash, outcome) = accepted_delivery now payload raw_body signature db db' ack h in
      elim (Outcome-cases payload db db' ack outcome) [
        | inl k ↦ inl (known_is_duplicate later payload raw_body signature db' a fresh hash k)
        | inr same ↦ inr (
          same,
          ap (λ d. handle_contract_webhook service later payload raw_body signature d) same
              ∙ ap (λ m. m db)
                  (checked_is_handled service later payload raw_body signature a fresh
                    ∙ sym (checked_is_handled service now payload raw_body signature a f))
              ∙ h,
        )
      ]
