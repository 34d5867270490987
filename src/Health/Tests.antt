-- ===== src/Health/Tests.antt =====
-- The checks of src/health where the database and Horizon are down.
use stellar_tip_api.Common.{String, ◌≡◌, ◌⊎◌, ◌↔◌}
use stellar_tip_api.Http.{Result, ok, throws, Exception, failure}
use stellar_tip_api.Stellar.Account.{HorizonAccount}
use stellar_tip_api.Health.{get_ready, get_remote, probe}
use stellar_tip_api.Health.Answers.{health_answers}

abbrev down : String → Result HorizonAccount
down address = throws failure

abbrev refused : Result (Unit {0})
refused = throws failure

health_answers_example :
    ((((get_ready refused "t").0 ≡ 200) × (refused ≡ ok tt))
      ⊎ (((get_ready refused "t").0 ≡ 503) × ((e : Exception) × (refused ≡ throws e))))
    × ((get_remote down "testnet" "t").0 ≡ 200)
    × ((get_remote down "testnet" "t").1.status ≡ "ok")
    × (((get_remote down "testnet" "t").1.stellar ≡ "degraded")
        ↔ ((e : Exception) × (down probe ≡ throws e)))
health_answers_example = health_answers refused down "testnet" "t"
