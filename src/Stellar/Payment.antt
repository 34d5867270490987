-- ===== src/Stellar/Payment.antt =====
-- `verifyPayment` and `verifyTipOnContract` of src/stellar/stellar.service.ts, and the helpers that
-- they read the answers of Horizon and of the contract with. The answers are parameters: the
-- fields that the source names, of a type it does not know.
use Prim.Native.String
use stellar_tip_api.Common.{
  ℕ, Bool, true, false, ◌&&◌, String, ◌==◌, Option, none, some, List, [], ◌∷◌, if◌then◌else◌,
  is_empty, truthy, non_empty, or_text,
}
use stellar_tip_api.Common.Num.{Num, num, lt_num, le_num, is_finite}
use stellar_tip_api.Common.Value.{
  Value, null, bool, number, bigint, string, array, object, Fields, end, field, at, property,
  or_nullish,
}
use stellar_tip_api.Common.Runtime.{Js}
use stellar_tip_api.Http.{Result, ok, throws}

-- What `verifyPayment` reads of an operation, and of a transaction.
pub record Operation : Type 0 where
  pub to : Value
  pub destination : Value
  pub amount : Value
  pub starting_balance : Value
  pub asset_type : Option String
  pub asset_code : Option String
  pub asset_issuer : Option String

pub record Transaction : Type 0 where
  pub operations : Option (List Operation)
  pub source_account : Value
  pub created_at : Value
  pub created_at_camel : Value

-- Horizon's transaction of a hash, and what the contract says of a creator's tip: the balance, the
-- number of tips and the tip.
pub record Chain : Type 0 where
  pub js : Js
  pub transaction : String → Result (Option Transaction)
  pub contract_id : Option String
  pub contract_reads : String → Num → Result (Value × Value × Value)

pub record Payment : Type 0 where
  pub verified : Bool
  pub from : Option String
  pub to : Option String
  pub amount : Option Num
  pub asset : Option String
  pub timestamp : Option String

pub record ContractTip : Type 0 where
  pub exists : Bool
  pub from : String
  pub to : String
  pub amount : Num
  pub timestamp : Option String

-- `'key' in obj`
abbrev pub has_property : Fields → String → Bool
has_property end key = false
has_property (field k v fs) key = if k == key then true else has_property fs key

unfoldable pub extract_result : Value → Value
unfolding property
extract_result (object fs) =
    if has_property fs "result" then or_nullish (property fs "result") null else object fs
extract_result v = or_nullish v null

abbrev pub unverified : Payment
unverified = record {
  verified = false;
  from = none;
  to = none;
  amount = none;
  asset = none;
  timestamp = none;
}

abbrev pub no_tip : ContractTip
no_tip = record { exists = false; from = ""; to = ""; amount = num 0; timestamp = none }

abbrev pub first_of : Option (List Operation) → Option Operation
first_of none = none
first_of (some []) = none
first_of (some (op ∷ ops)) = some op

-- a template string prints an absent text as `undefined`
abbrev pub printed : Option String → String
printed none = "undefined"
printed (some s) = s

abbrev pub is_credit : Option String → Bool
is_credit none = false
is_credit (some t) = t == "credit_alphanum4"

-- `value !== false`
abbrev pub is_not_false : Value → Bool
is_not_false (bool false) = false
is_not_false v = true

module _ (js : Js) where
  unfoldable pub stringify_scalar : Value → String
  stringify_scalar (string s) = s
  stringify_scalar (number n) = js.string_of_num n
  stringify_scalar (bigint n) = js.string_of_bigint n
  stringify_scalar (bool true) = "true"
  stringify_scalar (bool false) = "false"
  stringify_scalar v = ""

  -- the number that `toFiniteNumber` tests
  unfoldable pub parsed_number : Value → Num
  unfolding stringify_scalar
  parsed_number (number n) = n
  parsed_number (bigint n) = js.number_of_bigint n
  parsed_number v = js.parse_float (stringify_scalar v)

  unfoldable pub to_finite_number : Value → Num
  unfolding parsed_number
  to_finite_number v = if is_finite (parsed_number v) then parsed_number v else num 0

  abbrev pub iso_or : String → Option ℕ → String
  iso_or raw none = raw
  iso_or raw (some date) = js.to_iso_string date

  unfoldable pub normalize_timestamp : Value → Option String
  unfolding stringify_scalar
  normalize_timestamp v =
      let raw = stringify_scalar v in
      if is_empty raw then none else some (iso_or raw (js.parse_date raw))

  unfoldable pub normalize_contract_tip : Value → ContractTip
  unfolding stringify_scalar to_finite_number normalize_timestamp at property
  normalize_contract_tip (array vs) = record {
    exists = true;
    from = stringify_scalar (at vs 0);
    to = stringify_scalar (at vs 1);
    amount = to_finite_number (at vs 2);
    timestamp = normalize_timestamp (at vs 3);
  }
  normalize_contract_tip (object fs) = record {
    exists = is_not_false (property fs "exists");
    from = stringify_scalar (or_nullish (property fs "from") (property fs "senderWallet"));
    to = stringify_scalar (or_nullish (property fs "to") (property fs "receiverWallet"));
    amount = to_finite_number (property fs "amount");
    timestamp =
        normalize_timestamp (or_nullish (property fs "timestamp") (property fs "createdAt"));
  }
  normalize_contract_tip v = no_tip

  unfoldable pub operation_to : Option Operation → String
  unfolding stringify_scalar
  operation_to none = ""
  operation_to (some op) = stringify_scalar (or_nullish op.to op.destination)

  unfoldable pub operation_amount : Option Operation → Num
  unfolding stringify_scalar
  operation_amount none = num 0
  operation_amount (some op) =
      js.parse_float
        (or_text (some (stringify_scalar (or_nullish op.amount op.starting_balance))) "0")

  abbrev pub operation_asset : Option Operation → String
  operation_asset none = "XLM"
  operation_asset (some op) =
      if is_credit op.asset_type
      then String.◌++◌ (printed op.asset_code) (String.◌++◌ ":" (printed op.asset_issuer))
      else "XLM"

  unfoldable pub payment_of : Transaction → Payment
  unfolding stringify_scalar operation_to operation_amount
  payment_of tx =
      let operation = first_of tx.operations in
      record {
        verified = true;
        from = some (stringify_scalar tx.source_account);
        to = some (operation_to operation);
        amount = some (operation_amount operation);
        asset = some (operation_asset operation);
        timestamp =
            non_empty (some (stringify_scalar (or_nullish tx.created_at tx.created_at_camel)));
      }

module _ (chain : Chain) where
  unfoldable pub read_payment : Result (Option Transaction) → Payment
  unfolding payment_of
  read_payment (throws e) = unverified
  read_payment (ok none) = unverified
  read_payment (ok (some tx)) = payment_of chain.js tx

  unfoldable pub verify_payment : String → Payment
  unfolding read_payment
  verify_payment transaction_hash = read_payment (chain.transaction transaction_hash)

  unfoldable pub tip_on_contract : Num → Value × Value × Value → ContractTip
  unfolding extract_result to_finite_number normalize_contract_tip
  tip_on_contract tip_index reads =
      let balance = to_finite_number chain.js (extract_result reads.0) in
      let tip_count = to_finite_number chain.js (extract_result reads.1) in
      let tip = normalize_contract_tip chain.js (extract_result reads.2) in
      record tip {
        exists =
            tip.exists
            && le_num (num 0) tip_index
            && lt_num tip_index tip_count
            && le_num (num 0) balance
            && le_num (num 0) tip.amount;
      }

  -- the `catch` answers that there is no tip
  unfoldable pub tip_or_none : Num → Result (Value × Value × Value) → ContractTip
  unfolding tip_on_contract
  tip_or_none tip_index (throws e) = no_tip
  tip_or_none tip_index (ok reads) = tip_on_contract tip_index reads

  unfoldable pub verify_tip_on_contract : String → Num → ContractTip
  unfolding tip_or_none
  verify_tip_on_contract creator_address tip_index =
      if truthy chain.contract_id
      then tip_or_none tip_index (chain.contract_reads creator_address tip_index)
      else no_tip
