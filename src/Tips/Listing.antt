-- ===== src/Tips/Listing.antt =====
-- The endpoints of src/tips/tips.controller.ts that list tips. A page, a limit and an amount of a
-- query are numbers here: Nest's ValidationPipe converts them.
pub mod Owners
pub mod Sent
mod Tests
use stellar_tip_api.Common.{String, Option, none, some, if◌then◌else◌}
use stellar_tip_api.Common.Num.{Num, num, num_truthy}
use stellar_tip_api.Common.Runtime.{Js}
use stellar_tip_api.Http.{Action}
use stellar_tip_api.Database.{Database}
use stellar_tip_api.Tips.Query.{TipFilterOptions}
use stellar_tip_api.Tips.Query.Read.{
  TipReader, Paginated, get_tips_by_creator, get_tips_by_supporter, get_tips_by_wallet,
}

-- The parameters of the query string.
pub record TipQuery : Type 0 where
  pub page : Option Num
  pub limit : Option Num
  pub start_date : Option String
  pub end_date : Option String
  pub asset : Option String
  pub min_amount : Option Num
  pub max_amount : Option Num
  pub sort_by : Option String
  pub sort_order : Option String

-- the default of a parameter
abbrev pub given_num : Option Num → Num → Num
given_num none d = d
given_num (some n) d = n

-- `amount ? +amount : undefined`
abbrev pub set_amount : Option Num → Option Num
set_amount none = none
set_amount (some n) = if num_truthy n then some n else none

abbrev pub filter_options : TipQuery → TipFilterOptions
filter_options query = record {
  page = some (given_num query.page (num 1));
  limit = some (given_num query.limit (num 20));
  start_date = query.start_date;
  end_date = query.end_date;
  asset = query.asset;
  min_amount = set_amount query.min_amount;
  max_amount = set_amount query.max_amount;
  sort_by = query.sort_by;
  sort_order = query.sort_order;
}

module _ (js : Js) (reader : TipReader) where
  unfoldable pub get_my_received_tips : String → TipQuery → Action Database Paginated
  unfolding get_tips_by_creator
  get_my_received_tips user_id query = get_tips_by_creator js reader user_id (filter_options query)

  unfoldable pub get_my_sent_tips : String → TipQuery → Action Database Paginated
  unfolding get_tips_by_supporter
  get_my_sent_tips user_id query = get_tips_by_supporter js reader user_id (filter_options query)

  unfoldable pub get_wallet_tips : String → TipQuery → Action Database Paginated
  unfolding get_tips_by_wallet
  get_wallet_tips wallet_address query =
      get_tips_by_wallet js reader wallet_address (filter_options query)
