-- ===== src/Profiles/Tests.antt =====
-- `updateWalletAddress` of src/profiles/profiles.service.ts at a concrete request.
use stellar_tip_api.Common.{◌≡◌, refl, [], ◌∷◌}
use stellar_tip_api.Http.{throws, conflict}
use stellar_tip_api.Entities.{User}
use stellar_tip_api.Database.{Database, replace}
use stellar_tip_api.Fixtures.{list_orm, empty_database, wallet_user}
use stellar_tip_api.Profiles.{update_wallet_address}

abbrev stored : Database
stored = record empty_database { users = wallet_user "u1" "GA" ∷ wallet_user "u2" "GB" ∷ [] }

abbrev moved : User
moved = wallet_user "u1" "GC"

abbrev after_move : Database
unfolding replace
after_move = record empty_database { users = moved ∷ wallet_user "u2" "GB" ∷ [] }

-- a wallet of another account is refused
taken_run :
    update_wallet_address list_orm "u1" "GB" stored
    ≡ (throws (conflict "Wallet address already linked to another account"), stored)
unfolding update_wallet_address
taken_run = refl
