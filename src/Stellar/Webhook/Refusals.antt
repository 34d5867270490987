-- ===== src/Stellar/Webhook/Refusals.antt =====
-- Which requests the checks of `handleContractWebhook` refuse, and what they leave, in
-- src/stellar/stellar.service.ts.
use stellar_tip_api.Common.{ℕ, true, String, ◌≡◌, refl, ◌⊎◌, inl, inr, Option, List, if◌then◌else◌}
use stellar_tip_api.Http.{throws, unauthorized, pure, ◌>>=◌, Exception}
use stellar_tip_api.Database.{Database}
use stellar_tip_api.Stellar.Events.{Payload}
use stellar_tip_api.Stellar.Webhook.{
  Service, assert_webhook_signature, assert_event_is_fresh, handle_contract_webhook,
  is_duplicate_transaction, handle_new_event,
}
use stellar_tip_api.Stellar.Webhook.Checks.{
  IsAuthentic, IsFresh, check_signature-cases, assert_webhook_signature_sound,
  assert_webhook_signature_complete, check_age-cases, check_age_sound, assert_event_is_fresh_iff,
}

module _ (service : Service) where
  -- A request that is not signed is answered 401 and touches nothing.
  unsigned_is_refused :
      (now : ℕ) (payload : Payload) (raw_body : Option (List ℕ)) (signature : Option String)
      (db : Database)
      → ¬ IsAuthentic service raw_body signature
      → (m : String) × (handle_contract_webhook service now payload raw_body signature db
          ≡ (throws (unauthorized m), db))
  unfolding handle_contract_webhook assert_webhook_signature
  unsigned_is_refused now payload raw_body signature db forged =
      elim (check_signature-cases service service.webhook_secret raw_body signature) [
        | inl e ↦ absurd (forged (assert_webhook_signature_sound service raw_body signature e))
        | inr (m, e) ↦ (m, rw e)
      ]

  -- A signed request whose event is not fresh is refused and touches nothing.
  stale_is_refused :
      (now : ℕ) (payload : Payload) (raw_body : Option (List ℕ)) (signature : Option String)
      (db : Database)
      → ¬ IsFresh service now payload
      → (e : Exception) × (handle_contract_webhook service now payload raw_body signature db
          ≡ (throws e, db))
  unfolding handle_contract_webhook assert_event_is_fresh assert_webhook_signature
  stale_is_refused now payload raw_body signature db stale =
      elim (check_signature-cases service service.webhook_secret raw_body signature) [
        | inr (m, e) ↦ (unauthorized m, rw e)
        | inl a ↦ elim (check_age-cases service now (service.js.parse_date payload.timestamp)) [
          | inl e ↦ absurd (stale (check_age_sound service now payload _ refl e))
          | inr (x, e) ↦ (x, rw (a, e))
        ]
      ]

  -- A delivery whose header is not the digest of the raw body under the configured secret, or that
  -- is dated more than five minutes from now, changes nothing: it is answered 401, or it is
  -- authentic and refused.
  pub unaccepted_delivery :
      (now : ℕ) (payload : Payload) (raw_body : Option (List ℕ)) (signature : Option String)
      (db : Database)
      → (¬ IsAuthentic service raw_body signature) ⊎ (¬ IsFresh service now payload)
      → ((m : String) × (handle_contract_webhook service now payload raw_body signature db
            ≡ (throws (unauthorized m), db)))
        ⊎ (IsAuthentic service raw_body signature
            × ((e : Exception) × (handle_contract_webhook service now payload raw_body signature db
                  ≡ (throws e, db))))
  unfolding handle_contract_webhook assert_webhook_signature
  unaccepted_delivery now payload raw_body signature db (inl forged) =
      inl (unsigned_is_refused now payload raw_body signature db forged)
  unaccepted_delivery now payload raw_body signature db (inr stale) =
      elim (check_signature-cases service service.webhook_secret raw_body signature) [
        | inr (m, e) ↦ inl (m, rw e)
        | inl e ↦ inr (
          assert_webhook_signature_sound service raw_body signature e,
          stale_is_refused now payload raw_body signature db stale,
        )
      ]

  -- A signed and fresh request with a hash is handled, by what the tables hold of its hash.
  pub checked_is_handled :
      (now : ℕ) (payload : Payload) (raw_body : Option (List ℕ)) (signature : Option String)
      → IsAuthentic service raw_body signature
      → IsFresh service now payload
      → handle_contract_webhook service now payload raw_body signature ≡ (do
        duplicate ← is_duplicate_transaction service payload.transaction_hash
        if duplicate
            then pure (record { accepted = true; duplicate = true })
            else handle_new_event service payload)
  unfolding handle_contract_webhook
  checked_is_handled now payload raw_body signature a f = rw (
    assert_webhook_signature_complete service raw_body signature a,
    (assert_event_is_fresh_iff service now payload).1 f,
  )
