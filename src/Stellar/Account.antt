-- ===== src/Stellar/Account.antt =====
-- `getAccountBalance` and `getAccountInfo` of src/stellar/stellar.service.ts, and the endpoints of
-- src/stellar/stellar.controller.ts that answer with them. Horizon's answer is a parameter.
use Prim.Native.String
use stellar_tip_api.Common.{
  Bool, true, false, not, String, ◌==◌, Option, none, some, List, [], map, if◌then◌else◌, truthy,
  or_text,
}
use stellar_tip_api.Common.Num.{Num, num, num_or}
use stellar_tip_api.Http.{Result, ok, throws, bad_request}

-- A line of `account.balances`; a line of the native asset or of a pool has no code or issuer.
pub record BalanceLine : Type 0 where
  pub asset_type : String
  pub asset_code : Option String
  pub asset_issuer : Option String
  pub balance : String

-- What the code reads of the account that `server.loadAccount` gives.
pub record HorizonAccount : Type 0 where
  pub balances : List BalanceLine
  pub sequence_number : String
  pub subentry_count : Option Num

pub record AssetBalance : Type 0 where
  pub asset : String
  pub balance : String

pub record AccountInfo : Type 0 where
  pub address : String
  pub exists : Bool
  pub sequence_number : Option String
  pub subentry_count : Num
  pub network : String

-- `${s}` where `s` may be undefined
abbrev pub in_template : Option String → String
in_template none = "undefined"
in_template (some s) = s

abbrev pub balance_of_line : BalanceLine → AssetBalance
balance_of_line b =
    if b.asset_type == "native" then record { asset = "XLM"; balance = b.balance } else record {
      asset = String.◌++◌ (in_template b.asset_code) (String.◌++◌ ":" (in_template b.asset_issuer));
      balance = b.balance;
    }

-- `a || 0`
abbrev pub count_or_zero : Option Num → Num
count_or_zero none = num 0
count_or_zero (some n) = num_or n (num 0)

module _ (load_account : String → Result HorizonAccount) (network : String) where
  unfoldable pub get_account_balance : String → List AssetBalance
  get_account_balance wallet_address = elim (load_account wallet_address) [
    | ok account ↦ map balance_of_line account.balances
    | throws e ↦ []
  ]

  unfoldable pub get_account_info : String → AccountInfo
  get_account_info wallet_address = elim (load_account wallet_address) [
    | ok account ↦ record {
      address = wallet_address;
      exists = true;
      sequence_number = some account.sequence_number;
      subentry_count = count_or_zero account.subentry_count;
      network = network;
    }
    | throws e ↦ record {
      address = wallet_address;
      exists = false;
      sequence_number = none;
      subentry_count = num 0;
      network = network;
    }
  ]

  unfoldable pub get_balance : Option String → Result (List AssetBalance)
  unfolding get_account_balance
  get_balance wallet_address =
      if not (truthy wallet_address)
      then throws (bad_request "walletAddress is required")
      else ok (get_account_balance (or_text wallet_address ""))

  unfoldable pub get_account : Option String → Result AccountInfo
  unfolding get_account_info
  get_account wallet_address =
      if not (truthy wallet_address)
      then throws (bad_request "walletAddress is required")
      else ok (get_account_info (or_text wallet_address ""))
