-- ===== src/Tips/Create.antt =====
-- `createTip`, `getTipById` and `confirmTip` of src/tips/tips.service.ts.
pub mod Laws
pub mod Confirm
pub mod Ingest
mod Tests
use Prim.Native.String
use stellar_tip_api.Common.{
  Bool, true, false, not, ◌&&◌, ◌||◌, String, ◌==◌, Option, none, some, if◌then◌else◌, is_empty,
  truthy, non_empty, or_else, or_text, column_is,
}
use stellar_tip_api.Common.Num.{Num, num, le_num}
use stellar_tip_api.Http.{
  Action, pure, throw, not_found, bad_request, require, require_some, ◌>>=◌, ◌>>◌,
}
use stellar_tip_api.Entities.{
  Tip, User, TipColumns, TipAsset, xlm, usdc, is_usdc, TipStatus, TipWithdrawalStatus,
}
use stellar_tip_api.Database.{Orm, Database, find_user, find_tip, insert_tip, update_tip}

pub record TipsService : Type 0 where
  pub orm : Orm
  -- `USDC_ISSUER`
  pub usdc_issuer_setting : Option String

-- the constructor's `|| null`
abbrev pub usdc_issuer : TipsService → Option String
usdc_issuer service = non_empty service.usdc_issuer_setting

pub record CreateTipDto : Type 0 where
  pub receiver_wallet : String
  pub sender_wallet : Option String
  pub amount : Num
  pub message : Option String
  pub asset : Option String
  pub asset_issuer : Option String
  pub transaction_hash : Option String

-- `Object.values(TipAsset).includes(name)`, with the member
unfoldable pub asset_named : String → Option TipAsset
asset_named name = if name == "XLM" then some xlm else if name == "USDC" then some usdc else none

abbrev pub unsupported_asset : Option String → String
unsupported_asset asset =
    String.◌++◌ "Unsupported asset type: "
      (String.◌++◌ (or_text asset "") ". Supported asset types are: XLM, USDC")

module _ (service : TipsService) where
  abbrev pub wallet_is : String → User → Bool
  wallet_is wallet u = column_is u.columns.wallet_address wallet

  -- the new `Tip` of `createTip`
  unfoldable pub new_tip : CreateTipDto → Option String → User → TipAsset → TipColumns
  new_tip dto supporter_id creator asset = record {
    creator_id = creator.id;
    supporter_id = non_empty supporter_id;
    sender_wallet = or_text dto.sender_wallet "";
    receiver_wallet = dto.receiver_wallet;
    amount = dto.amount;
    asset = asset;
    asset_issuer = if is_usdc asset then or_else dto.asset_issuer (usdc_issuer service) else none;
    message = or_text dto.message "";
    transaction_hash = non_empty dto.transaction_hash;
    status = if truthy dto.transaction_hash then TipStatus.completed else TipStatus.pending;
    withdrawal_status = TipWithdrawalStatus.none;
    withdrawal_transaction_hash = none;
  }

  unfoldable pub create_tip : CreateTipDto → Option String → Action Database Tip
  unfolding asset_named new_tip
  create_tip dto supporter_id = do
    found ← find_user service.orm (wallet_is dto.receiver_wallet)
    creator ← require_some found (not_found "Creator not found with this wallet address")
    require (not (le_num dto.amount (num 0))) (bad_request "Tip amount must be greater than 0")
    require (not (or_text dto.asset "XLM" == "USDC") || truthy (usdc_issuer service)) (
        bad_request
          "USDC tipping is not configured. Please set the USDC_ISSUER environment variable.")
    asset ←
        require_some (asset_named (or_text dto.asset "XLM"))
          (bad_request (unsupported_asset dto.asset))
    insert_tip service.orm (new_tip dto supporter_id creator asset)

  unfoldable pub get_tip_by_id : String → Action Database Tip
  get_tip_by_id id = do
    found ← find_tip service.orm (λ t. t.id == id)
    require_some found (not_found "Tip not found")

  -- the tip with its hash, completed
  abbrev pub confirmed : String → Tip → Tip
  confirmed transaction_hash tip = record tip {
    columns = record (tip.columns) {
      transaction_hash = some transaction_hash;
      status = TipStatus.completed;
    };
  }

  unfoldable pub confirm_tip : String → String → Action Database Tip
  confirm_tip id transaction_hash = do
    found ← find_tip service.orm (λ t. t.id == id)
    tip ← require_some found (not_found "Tip not found")
    update_tip service.orm (confirmed transaction_hash tip)

-- The controller's `createTip`, which passes no supporter on.
unfoldable pub create_tip_request : TipsService → CreateTipDto → Action Database Tip
unfolding create_tip
create_tip_request service dto =
    if not (truthy dto.sender_wallet) && not (truthy dto.transaction_hash)
    then throw (bad_request "senderWallet is required when no transactionHash is provided")
    else create_tip service dto none
