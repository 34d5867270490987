-- ===== src/Stellar/Webhook/Checks.antt =====
-- What the checks of `handleContractWebhook` let through, in
-- src/stellar/stellar.service.ts (`assertWebhookSignature`, `assertEventIsFresh`).
use stellar_tip_api.Common.{
  ℕ, ◌+◌, ◌-◌, ◌≤◌, ltb, true, false, String, ◌≡◌, refl, sym, ap, ◌↔◌, ◌⊎◌, inl, inr, Option, none,
  some, List, ◌∷◌, arith, is_empty, Bool-cases,
}
use stellar_tip_api.Http.{ok, throws, unauthorized, Exception}
use stellar_tip_api.Stellar.Events.{Payload}
use stellar_tip_api.Stellar.Webhook.{
  Service, max_event_age_ms, signature_matches, compare_signature, check_signature,
  assert_webhook_signature, assert_event_is_fresh, check_age, invalid_signature,
}

module _ (service : Service) where
  -- The header holds the digest of the raw body under the configured secret.
  pub record IsAuthentic (raw_body : Option (List ℕ)) (signature : Option String) : Type 0 where
    pub secret : String
    pub configured : service.webhook_secret ≡ some secret
    pub secret_set : is_empty secret ≡ false
    pub byte : ℕ
    pub bytes : List ℕ
    pub body_given : raw_body ≡ some (byte ∷ bytes)
    pub signed : signature ≡ some (service.crypto.hmac_sha256_hex secret (byte ∷ bytes))

  -- The event's date is at most five minutes from now, before or after.
  pub record IsFresh (now : ℕ) (payload : Payload) : Type 0 where
    pub time : ℕ
    pub dated : service.js.parse_date payload.timestamp ≡ some time
    pub not_old : now ≤ time + max_event_age_ms
    pub not_ahead : time ≤ now + max_event_age_ms

  pub signature_matches_iff :
      (secret : String) (body : List ℕ) (signature : String)
      → (signature_matches service secret body signature ≡ true)
        ↔ (signature ≡ service.crypto.hmac_sha256_hex secret body)
  unfolding signature_matches
  signature_matches_iff secret body signature = (
    λ h. sym (
        service.crypto.utf8_injective _ _
          ((service.crypto.timing_safe_equal_iff _ _).0 (ground arith))),
    λ e. rw e (
        ground (
          arith,
          let d = service.crypto.utf8 (service.crypto.hmac_sha256_hex secret body) in
              (service.crypto.timing_safe_equal_iff d d).1 refl,
        )),
  )

  compare_signature_sound :
      (secret : String) (raw_body : Option (List ℕ)) (signature : Option String)
      → service.webhook_secret ≡ some secret
      → is_empty secret ≡ false
      → compare_signature service secret raw_body signature ≡ ok tt
      → IsAuthentic raw_body signature
  unfolding compare_signature invalid_signature
  compare_signature_sound secret (some (b ∷ bs)) (some signature) configured set h = record {
    secret = secret;
    configured = configured;
    secret_set = set;
    byte = b;
    bytes = bs;
    body_given = refl;
    signed = ap some ((signature_matches_iff secret (b ∷ bs) signature).0 (ground arith));
  }
  compare_signature_sound secret raw_body signature configured set h = cc

  check_signature_sound :
      (secret : Option String) (raw_body : Option (List ℕ)) (signature : Option String)
      → service.webhook_secret ≡ secret
      → check_signature service secret raw_body signature ≡ ok tt
      → IsAuthentic raw_body signature
  unfolding check_signature
  check_signature_sound none raw_body signature configured h = cc
  check_signature_sound (some secret) raw_body signature configured h =
      elim (Bool-cases (is_empty secret)) [
        | inl e ↦ ground arith
        | inr set ↦ compare_signature_sound secret raw_body signature configured set (rw set at h)
      ]

  pub assert_webhook_signature_sound :
      (raw_body : Option (List ℕ)) (signature : Option String)
      → assert_webhook_signature service raw_body signature ≡ ok tt
      → IsAuthentic raw_body signature
  unfolding assert_webhook_signature
  assert_webhook_signature_sound raw_body signature h =
      check_signature_sound service.webhook_secret raw_body signature refl h

  pub assert_webhook_signature_complete :
      (raw_body : Option (List ℕ)) (signature : Option String)
      → IsAuthentic raw_body signature
      → assert_webhook_signature service raw_body signature ≡ ok tt
  unfolding assert_webhook_signature check_signature compare_signature
  assert_webhook_signature_complete raw_body signature a =
      rw (a.configured, a.secret_set, a.body_given, a.signed)
        (ground (
          arith,
          service.crypto.hmac_sha256_hex_set a.secret (a.byte ∷ a.bytes),
          (signature_matches_iff a.secret (a.byte ∷ a.bytes)
                (service.crypto.hmac_sha256_hex a.secret (a.byte ∷ a.bytes))).1
              refl,
        ))

  compare_signature-cases :
      (secret : String) (raw_body : Option (List ℕ)) (signature : Option String)
      → (compare_signature service secret raw_body signature ≡ ok tt)
        ⊎ (compare_signature service secret raw_body signature
            ≡ throws (unauthorized "Invalid webhook signature"))
  unfolding compare_signature invalid_signature
  compare_signature-cases secret (some (b ∷ bs)) (some signature) = ground arith
  compare_signature-cases secret raw_body signature = inr refl

  pub check_signature-cases :
      (secret : Option String) (raw_body : Option (List ℕ)) (signature : Option String)
      → (check_signature service secret raw_body signature ≡ ok tt)
        ⊎ ((m : String) × (check_signature service secret raw_body signature
              ≡ throws (unauthorized m)))
  unfolding check_signature
  check_signature-cases none raw_body signature = inr ("Webhook secret is not configured", refl)
  check_signature-cases (some secret) raw_body signature = elim (Bool-cases (is_empty secret)) [
    | inl e ↦ inr ("Webhook secret is not configured", rw e)
    | inr e ↦ elim (compare_signature-cases secret raw_body signature) [
      | inl k ↦ inl (rw e k)
      | inr k ↦ inr ("Invalid webhook signature", rw e k)
    ]
  ]

  pub check_age_sound :
      (now : ℕ) (payload : Payload) (date : Option ℕ)
      → service.js.parse_date payload.timestamp ≡ date
      → check_age service now date ≡ ok tt
      → IsFresh now payload
  unfolding check_age
  check_age_sound now payload none e h = cc
  check_age_sound now payload (some t) e h = record {
    time = t;
    dated = e;
    not_old = ground arith;
    not_ahead = ground arith;
  }

  pub check_age-cases :
      (now : ℕ) (date : Option ℕ)
      → (check_age service now date ≡ ok tt)
        ⊎ ((e : Exception) × (check_age service now date ≡ throws e))
  unfolding check_age
  check_age-cases now none = inr (_, refl)
  check_age-cases now (some t) = elim (Bool-cases (ltb max_event_age_ms ((now - t) + (t - now)))) [
    | inl e ↦ inr (unauthorized "Webhook event is outside replay window", rw e)
    | inr e ↦ inl (rw e)
  ]

  pub assert_event_is_fresh_iff :
      (now : ℕ) (payload : Payload)
      → (assert_event_is_fresh service now payload ≡ ok tt) ↔ IsFresh now payload
  unfolding assert_event_is_fresh check_age
  assert_event_is_fresh_iff now payload = (
    check_age_sound now payload (service.js.parse_date payload.timestamp) refl,
    λ f. rw f.dated (ground (arith, f.not_old, f.not_ahead)),
  )
