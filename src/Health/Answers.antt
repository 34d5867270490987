-- ===== src/Health/Answers.antt =====
-- What the checks of src/health answer when the database or Horizon fails.
use stellar_tip_api.Common.{String, ◌≡◌, refl, sym, ◌∙◌, ◌⊎◌, inl, inr, ◌↔◌, arith, eq_iff}
use stellar_tip_api.Http.{Result, ok, throws, Exception, Result-cases, throws-ne-ok}
use stellar_tip_api.Stellar.Account.{HorizonAccount, get_account_info}
use stellar_tip_api.Health.{
  get_ready, get_readiness, get_remote, get_remote_health, remote_health_of, probe,
}

ready-cases :
    (query : Result (Unit {0})) (timestamp : String)
    → (((get_ready query timestamp).0 ≡ 200) × (query ≡ ok tt))
      ⊎ (((get_ready query timestamp).0 ≡ 503) × ((e : Exception) × (query ≡ throws e)))
unfolding get_ready get_readiness
ready-cases (ok tt) timestamp = inl (refl, refl)
ready-cases (throws e) timestamp = inr (refl, (e, refl))

-- A Horizon that throws is told as degraded, and no other is.
degraded_iff :
    (load_account : String → Result HorizonAccount) (network timestamp : String)
    → ((get_remote load_account network timestamp).1.stellar ≡ "degraded")
      ↔ ((e : Exception) × (load_account probe ≡ throws e))
unfolding get_remote get_remote_health remote_health_of get_account_info
degraded_iff load_account network timestamp = elim (Result-cases (load_account probe)) [
  | inl (account, e) ↦ (
    λ told.
        absurd (ground (arith, rw (get_account_info, e) at told, eq_iff "reachable" "degraded")),
    λ (x, f). absurd (throws-ne-ok (sym f ∙ e)),
  )
  | inr (x, e) ↦ (λ told. (x, e), λ failed. rw (get_account_info, e) refl)
]

-- The readiness check answers 200 where the database takes the query and 503 where it throws. The
-- remote check answers 200 and the status ok whatever Horizon does, and tells a Horizon that
-- throws as degraded.
pub health_answers :
    (query : Result (Unit {0})) (load_account : String → Result HorizonAccount)
    (network timestamp : String)
    → ((((get_ready query timestamp).0 ≡ 200) × (query ≡ ok tt))
        ⊎ (((get_ready query timestamp).0 ≡ 503) × ((e : Exception) × (query ≡ throws e))))
      × ((get_remote load_account network timestamp).0 ≡ 200)
      × ((get_remote load_account network timestamp).1.status ≡ "ok")
      × (((get_remote load_account network timestamp).1.stellar ≡ "degraded")
          ↔ ((e : Exception) × (load_account probe ≡ throws e)))
unfolding get_ready get_readiness get_remote get_remote_health remote_health_of get_account_info
health_answers query load_account network timestamp =
    (ready-cases query timestamp, refl, refl, degraded_iff load_account network timestamp)
