-- ===== src/Tips/Query.antt =====
-- `buildFilterQuery` of src/tips/tips.service.ts: the filter options of a request, checked and made a
-- query. A page and a limit are whole numbers, or not finite.
pub mod Bounds
pub mod Read
mod Tests
use Prim.Native.String
use stellar_tip_api.Common.{
  ℕ, Bool, true, false, not, ◌&&◌, ◌||◌, String, ◌==◌, ◌≡◌, Option, none, some, List, if◌then◌else◌,
  leb, truthy, or_text, column_is, upper_is,
}
use stellar_tip_api.Common.Num.{Num, num, lt_num, le_num, num_or, pred_num, mul_num, ceil_div}
use stellar_tip_api.Common.Runtime.{Js}
use stellar_tip_api.Common.Lists.{length, take, drop}
use stellar_tip_api.Http.{Result, ok, throws, bad_request, failure, and_then, Action}
use stellar_tip_api.Entities.{Tip, TipAsset, xlm, usdc, is_usdc, asset_name}
use stellar_tip_api.Database.{Database}

pub record TipFilterOptions : Type 0 where
  pub page : Option Num
  pub limit : Option Num
  pub start_date : Option String
  pub end_date : Option String
  pub asset : Option String
  pub min_amount : Option Num
  pub max_amount : Option Num
  pub sort_by : Option String
  pub sort_order : Option String

-- `Between`, `MoreThanOrEqual` and `LessThanOrEqual`
pub data Range (A : Type 0) : Type 0 where
  anything : Range A
  between : A → A → Range A
  at_least at_most : A → Range A

pub record FilterQuery : Type 0 where
  pub created_at : Range ℕ
  pub asset : Option TipAsset
  pub amount : Range Num
  pub sort_by : String
  pub sort_order : String
  pub skip : Num
  pub take : Num

-- `n || d` of a number that may be absent
abbrev pub default_num : Option Num → ℕ → Num
default_num none d = num d
default_num (some n) d = num_or n (num d)

abbrev pub page_of : TipFilterOptions → Num
page_of options = default_num options.page 1

abbrev pub limit_of : TipFilterOptions → Num
limit_of options = default_num options.limit 20

abbrev pub check : Bool → String → Result (Unit {0})
check true message = ok tt
check false message = throws (bad_request message)

-- a date that must be one
abbrev pub valid_date : Option ℕ → String → Result ℕ
valid_date none message = throws (bad_request message)
valid_date (some date) message = ok date

unfoldable pub date_range : Js → Option String → Option String → Result (Range ℕ)
date_range js start_date end_date =
    let message : String = "Invalid date format. Use ISO 8601." in
    let start = js.parse_date (or_text start_date "") in
    let last = js.parse_date (or_text end_date "") in
    if truthy start_date && truthy end_date
    then and_then (valid_date start message)
        (λ s. and_then (valid_date last message) λ e. ok (between s e))
    else if truthy start_date
    then and_then (valid_date start "Invalid startDate format. Use ISO 8601.")
        (λ s. ok (at_least s))
    else if truthy end_date
    then and_then (valid_date last "Invalid endDate format. Use ISO 8601.") (λ e. ok (at_most e))
    else ok anything

abbrev pub asset_of : String → Option TipAsset
asset_of name =
    if upper_is name "XLM" then some xlm else if upper_is name "USDC" then some usdc else none

abbrev pub known_asset : String → Option TipAsset → Result (Option TipAsset)
known_asset name none =
    throws (bad_request (String.◌++◌ "Invalid asset: " (String.◌++◌ name ". Supported: XLM, USDC")))
known_asset name (some asset) = ok (some asset)

unfoldable pub asset_filter : Option String → Result (Option TipAsset)
asset_filter asset =
    if truthy asset then known_asset (or_text asset "") (asset_of (or_text asset "")) else ok none

unfoldable pub amount_range : Option Num → Option Num → Result (Range Num)
amount_range (some low) (some high) =
    if lt_num low (num 0) || lt_num high (num 0)
    then throws (bad_request "Amount filters must be greater than or equal to 0")
    else ok (between low high)
amount_range (some low) none =
    if lt_num low (num 0)
    then throws (bad_request "minAmount must be greater than or equal to 0")
    else ok (at_least low)
amount_range none (some high) =
    if lt_num high (num 0)
    then throws (bad_request "maxAmount must be greater than or equal to 0")
    else ok (at_most high)
amount_range none none = ok anything

abbrev pub sort_by_of : TipFilterOptions → String
sort_by_of options = or_text options.sort_by "createdAt"

abbrev pub sort_order_of : TipFilterOptions → String
sort_order_of options = or_text options.sort_order "DESC"

abbrev pub allowed_sort_by : String → Bool
allowed_sort_by sort_by = sort_by == "createdAt" || sort_by == "amount"

abbrev pub allowed_sort_order : String → Bool
allowed_sort_order sort_order = sort_order == "ASC" || sort_order == "DESC"

abbrev pub invalid : String → String → String → String
invalid option value allowed = String.◌++◌ "Invalid " (
    String.◌++◌ option
      (String.◌++◌ ": " (String.◌++◌ value (String.◌++◌ ". Allowed values: " allowed))))

unfoldable pub build_filter_query : Js → TipFilterOptions → Result FilterQuery
unfolding date_range asset_filter amount_range
build_filter_query js options =
    let page = page_of options in
    let limit = limit_of options in
    let by = sort_by_of options in
    let direction = sort_order_of options in
    and_then (check (not (lt_num page (num 1))) "Page must be greater than 0") λ _.
      and_then
        (check (not (lt_num limit (num 1) || lt_num (num 100) limit))
          "Limit must be between 1 and 100")
        λ _. and_then (check (allowed_sort_by by) (invalid "sortBy" by "createdAt, amount")) λ _.
          and_then
            (check (allowed_sort_order direction) (invalid "sortOrder" direction "ASC, DESC"))
            λ _. and_then (date_range js options.start_date options.end_date) λ created_at.
              and_then (asset_filter options.asset) λ asset.
                and_then (amount_range options.min_amount options.max_amount) λ amount. ok (record {
                  created_at = created_at;
                  asset = asset;
                  amount = amount;
                  sort_by = by;
                  sort_order = direction;
                  skip = mul_num (pred_num page) limit;
                  take = limit;
                })
