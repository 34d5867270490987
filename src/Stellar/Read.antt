-- ===== src/Stellar/Read.antt =====
-- The readers of webhook fields of src/stellar/stellar.service.ts: `readString`,
-- `readOptionalString`, `readAmount`, `normalizeAsset`, `normalizeWithdrawalStatus`.
pub mod Laws
use stellar_tip_api.Common.{
  not, ◌||◌, String, Option, none, some, ◌≡◌, if◌then◌else◌, is_empty, trim, upper_is, lower_is,
  arith,
}
use stellar_tip_api.Common.Num.{Num, num, is_finite, le_num, IsPositive, IsPositive-of_tests}
use stellar_tip_api.Common.Value.{Value, string, number}
use stellar_tip_api.Common.Runtime.{Js}
use stellar_tip_api.Http.{Result, ok, throws, bad_request}
use stellar_tip_api.Entities.{TipAsset, xlm, usdc, TipWithdrawalStatus}

unfoldable pub read_string : Value → Result String
read_string (string s) =
    if is_empty (trim s)
    then throws (bad_request "Webhook payload is missing required fields")
    else ok (trim s)
read_string _ = throws (bad_request "Webhook payload is missing required fields")

unfoldable pub read_optional_string : Value → Option String
read_optional_string (string s) = if is_empty (trim s) then none else some (trim s)
read_optional_string _ = none

check_amount : Num → Result Num
check_amount amount =
    if not (is_finite amount) || le_num amount (num 0)
    then throws (bad_request "Webhook payload has an invalid amount")
    else ok amount

amount_of_string : Js → Result String → Result Num
unfolding check_amount
amount_of_string js (ok s) = check_amount (js.to_number s)
amount_of_string js (throws e) = throws e

unfoldable pub read_amount : Js → Value → Result Num
unfolding check_amount amount_of_string read_string
read_amount js (number n) = check_amount n
read_amount js v = amount_of_string js (read_string v)

-- the switch on the upper-case name; an absent one is XLM
asset_of_name : Option String → Result TipAsset
asset_of_name none = ok xlm
asset_of_name (some s) =
    if upper_is s "XLM"
    then ok xlm
    else if upper_is s "USDC"
    then ok usdc
    else throws (bad_request "Unsupported webhook asset")

unfoldable pub normalize_asset : Value → Result TipAsset
unfolding asset_of_name read_optional_string
normalize_asset v = asset_of_name (read_optional_string v)

-- An absent status is `undefined` here, since it comes through `?.`, and the switch has a case for
-- `null` only: it goes to the default.
status_of_name : Option String → Result TipWithdrawalStatus
status_of_name none = throws (bad_request "Unsupported withdrawal status")
status_of_name (some s) =
    if lower_is s "pending"
    then ok TipWithdrawalStatus.pending
    else if lower_is s "failed"
    then ok TipWithdrawalStatus.failed
    else if lower_is s "completed"
    then ok TipWithdrawalStatus.completed
    else throws (bad_request "Unsupported withdrawal status")

unfoldable pub normalize_withdrawal_status : Value → Result TipWithdrawalStatus
unfolding status_of_name read_optional_string
normalize_withdrawal_status v = status_of_name (read_optional_string v)
