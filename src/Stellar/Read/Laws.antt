-- ===== src/Stellar/Read/Laws.antt =====
-- What the readers of webhook fields in src/stellar/stellar.service.ts let through.
use stellar_tip_api.Common.{false, String, ◌≡◌, none, arith, is_empty, trim, eq_iff}
use stellar_tip_api.Common.Num.{Num, IsPositive, IsPositive-of_tests}
use stellar_tip_api.Common.Value.{Value, string, number}
use stellar_tip_api.Common.Runtime.{Js}
use stellar_tip_api.Http.{Result, ok, throws, throws-ne-ok, bad_request}
use stellar_tip_api.Stellar.Read.{
  read_string, read_amount, check_amount, amount_of_string, read_optional_string,
  normalize_withdrawal_status,
}

check_amount-IsPositive : (n m : Num) → check_amount n ≡ ok m → IsPositive m
unfolding check_amount
check_amount-IsPositive n m h = IsPositive-of_tests m (ground arith) (ground arith)

pub read_string-set : (v : Value) (s : String) → read_string v ≡ ok s → is_empty s ≡ false
unfolding read_string
read_string-set (string t) s h = ground (arith, eq_iff (trim t) "", eq_iff s "")
read_string-set v s h = absurd (throws-ne-ok h)

amount_of_string-IsPositive :
    (js : Js) (r : Result String) (n : Num) → amount_of_string js r ≡ ok n → IsPositive n
unfolding amount_of_string
amount_of_string-IsPositive js (ok s) n h = check_amount-IsPositive (js.to_number s) n h
amount_of_string-IsPositive js (throws e) n h = absurd (throws-ne-ok h)

pub read_amount-IsPositive :
    (js : Js) (v : Value) (n : Num) → read_amount js v ≡ ok n → IsPositive n
unfolding read_amount
read_amount-IsPositive js (number m) n h = check_amount-IsPositive m n h
read_amount-IsPositive js v n h = amount_of_string-IsPositive js (read_string v) n h

-- An absent status is refused.
pub normalize_withdrawal_status-absent :
    (v : Value)
    → read_optional_string v ≡ none
    → normalize_withdrawal_status v ≡ throws (bad_request "Unsupported withdrawal status")
unfolding normalize_withdrawal_status
normalize_withdrawal_status-absent v h = rw h
