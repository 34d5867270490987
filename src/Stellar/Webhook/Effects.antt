-- ===== src/Stellar/Webhook/Effects.antt =====
-- What an event that the webhook takes in does to the tables, by its topic: the switch of
-- `handleContractWebhook` in src/stellar/stellar.service.ts.
use stellar_tip_api.Common.{
  true, false, String, ◌==◌, ◌≡◌, refl, ap, ◌∙◌, ◌⊎◌, inl, inr, Option, none, some, arith,
  Bool-cases, eq_iff,
}
use stellar_tip_api.Http.{ok, bind-inv}
use stellar_tip_api.Entities.{Tip}
use stellar_tip_api.Database.{Database, Has}
use stellar_tip_api.Stellar.Events.{
  Payload, tip_event, withdrawal_event, register_event, normalize_contract_event_topic,
}
use stellar_tip_api.Stellar.Webhook.{Service, Ack, mentions, dispatch, handle_new_event}
use stellar_tip_api.Stellar.Webhook.Stored.{IsStored, persist_tip_event-IsStored}
use stellar_tip_api.Stellar.Webhook.Withdrawn.{
  IsWithdrawn, IsUnlinked, persist_withdrawal_event-cases,
}

module _ (service : Service) where
  abbrev pub fresh_ack : Ack
  fresh_ack = record { accepted = true; duplicate = false }

  abbrev pub duplicate_ack : Ack
  duplicate_ack = record { accepted = true; duplicate = true }

  -- Some tip has the hash, as its own or as its withdrawal's.
  pub record IsKnown (hash : String) (db : Database) : Type 0 where
    pub tip : Tip
    pub listed : Has tip db.tips
    pub mentioned : mentions service hash tip ≡ true

  -- What an event that was taken in did, by its topic.
  pub data Effect (payload : Payload) (db db' : Database) : Type 0 where
    tipped :
        normalize_contract_event_topic payload.topic ≡ some tip_event
        → IsStored service payload db db'
        → Effect payload db db'
    withdrew :
        normalize_contract_event_topic payload.topic ≡ some withdrawal_event
        → IsWithdrawn service payload db db'
        → Effect payload db db'
    passed_over :
        normalize_contract_event_topic payload.topic ≡ some withdrawal_event
        → IsUnlinked service payload db
        → db' ≡ db
        → Effect payload db db'
    registered :
        normalize_contract_event_topic payload.topic ≡ some register_event
        → db' ≡ db
        → Effect payload db db'

  withdrawal-Effect :
      (payload : Payload) (db db' : Database)
      → normalize_contract_event_topic payload.topic ≡ some withdrawal_event
      → (IsUnlinked service payload db × (db' ≡ db)) ⊎ IsWithdrawn service payload db db'
      → Effect payload db db'
  withdrawal-Effect payload db db' t (inl (u, e)) = passed_over t u e
  withdrawal-Effect payload db db' t (inr w) = withdrew t w

  dispatch-Effect :
      (payload : Payload) (topic : Option String) (db db' : Database)
      → normalize_contract_event_topic payload.topic ≡ topic
      → dispatch service payload topic db ≡ (ok tt, db')
      → Effect payload db db'
  unfolding dispatch
  dispatch-Effect payload none db db' t h = ground arith
  dispatch-Effect payload (some topic) db db' t h = elim (Bool-cases (topic == tip_event)) [
    | inl e ↦
        tipped (t ∙ ap some ((eq_iff topic tip_event).0 e))
          (persist_tip_event-IsStored service payload db db' (rw e at h))
    | inr e ↦ elim (Bool-cases (topic == withdrawal_event)) [
      | inl w ↦
          withdrawal-Effect payload db db' (t ∙ ap some ((eq_iff topic withdrawal_event).0 w))
            (persist_withdrawal_event-cases service payload db db' (rw (e, w) at h))
      | inr w ↦ elim (Bool-cases (topic == register_event)) [
        | inl r ↦ registered (t ∙ ap some ((eq_iff topic register_event).0 r)) (ground arith)
        | inr r ↦ ground arith
      ]
    ]
  ]

  pub handle_new_event-Effect :
      (payload : Payload) (db db' : Database) {ack : Ack}
      → handle_new_event service payload db ≡ (ok ack, db')
      → (ack ≡ fresh_ack) × Effect payload db db'
  unfolding handle_new_event
  handle_new_event-Effect payload db db' h =
      let topic = normalize_contract_event_topic payload.topic in
      let (done, db1, e, h1) = bind-inv (dispatch service payload topic) _ db h in
      let same : db1 ≡ db' = ap (λ p. p.1) h1 in
      (ground arith, dispatch-Effect payload topic db db' refl (rw (← same) e))
