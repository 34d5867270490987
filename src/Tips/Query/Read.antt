-- ===== src/Tips/Query/Read.antt =====
-- `formatPaginatedResult`, `getTipsByCreator`, `getTipsBySupporter` and `getTipsByWallet` of
-- src/tips/tips.service.ts.
pub mod Pages
use stellar_tip_api.Common.{
  ℕ, Bool, true, false, not, ◌&&◌, ◌||◌, String, ◌==◌, ◌≡◌, Option, none, some, List, ◌↔◌,
  if◌then◌else◌, leb, truthy, column_is,
}
use stellar_tip_api.Common.Num.{Num, num, lt_num, le_num, ceil_div}
use stellar_tip_api.Common.Runtime.{Js}
use stellar_tip_api.Common.Lists.{length, take, drop}
use stellar_tip_api.Http.{Result, ok, throws, failure, Action, pure, lift, require_some, ◌>>=◌}
use stellar_tip_api.Entities.{Tip, TipAsset, asset_name}
use stellar_tip_api.Database.{Database, Has}
use stellar_tip_api.Tips.Query.{
  TipFilterOptions, Range, anything, between, at_least, at_most, FilterQuery, page_of, limit_of,
  build_filter_query,
}

-- TypeORM's `findAndCount` on the tips. `ordered` is `ORDER BY` of the rows that the `where` takes,
-- in the order of a column; a page of it is cut out where the numbers are natural ones.
pub record TipReader : Type 0 where
  pub ordered : String → String → (Tip → Bool) → List Tip → List Tip
  pub ordered_iff :
      (column direction : String) (p : Tip → Bool) (rows : List Tip) (tip : Tip)
      → Has tip (ordered column direction p rows) ↔ (Has tip rows × (p tip ≡ true))
  pub find_and_count : (Tip → Bool) → String → String → Num → Num → List Tip → Option (List Tip × ℕ)
  pub find_and_count_page :
      (p : Tip → Bool) (column direction : String) (skip limit : ℕ) (rows : List Tip)
      → find_and_count p column direction (num skip) (num limit) rows
        ≡ some (
          take limit (drop skip (ordered column direction p rows)),
          length (ordered column direction p rows),
        )

pub record Paginated : Type 0 where
  pub items : List Tip
  pub total : ℕ
  pub page : Num
  pub limit : Num
  pub total_pages : Num
  pub has_next_page : Bool
  pub has_previous_page : Bool

unfoldable pub format_paginated_result : List Tip → ℕ → Num → Num → Paginated
format_paginated_result tips total page limit =
    let total_pages = ceil_div total limit in
    record {
      items = tips;
      total = total;
      page = page;
      limit = limit;
      total_pages = total_pages;
      has_next_page = lt_num page total_pages;
      has_previous_page = lt_num (num 1) page;
    }

-- whether a date is in the range, and an amount
abbrev pub in_dates : Range ℕ → ℕ → Bool
in_dates anything date = true
in_dates (between low high) date = leb low date && leb date high
in_dates (at_least low) date = leb low date
in_dates (at_most high) date = leb date high

abbrev pub in_amounts : Range Num → Num → Bool
in_amounts anything n = true
in_amounts (between low high) n = le_num low n && le_num n high
in_amounts (at_least low) n = le_num low n
in_amounts (at_most high) n = le_num n high

abbrev pub in_asset : Option TipAsset → TipAsset → Bool
in_asset none asset = true
in_asset (some wanted) asset = asset_name asset == asset_name wanted

-- the `where` of the filters
abbrev pub matches : FilterQuery → Tip → Bool
matches query tip =
    in_dates query.created_at tip.created_at
    && in_asset query.asset tip.columns.asset
    && in_amounts query.amount tip.columns.amount

module _ (js : Js) (reader : TipReader) where
  abbrev pub find_page : (Tip → Bool) → FilterQuery → Action Database (Option (List Tip × ℕ))
  find_page base query db = (
    ok (
        reader.find_and_count (λ tip. base tip && matches query tip) query.sort_by query.sort_order
          query.skip query.take db.tips),
    db,
  )

  -- what the three reads share; the database refuses a skip that is not a number
  unfoldable pub get_page : (Tip → Bool) → TipFilterOptions → Action Database Paginated
  unfolding format_paginated_result
  get_page base options = do
    query ← lift (build_filter_query js options)
    read ← find_page base query
    found ← require_some read failure
    pure (format_paginated_result found.0 found.1 (page_of options) (limit_of options))

  unfoldable pub get_tips_by_creator : String → TipFilterOptions → Action Database Paginated
  unfolding get_page
  get_tips_by_creator creator_id options =
      get_page (λ tip. tip.columns.creator_id == creator_id) options

  unfoldable pub get_tips_by_supporter : String → TipFilterOptions → Action Database Paginated
  unfolding get_page
  get_tips_by_supporter supporter_id options =
      get_page (λ tip. column_is tip.columns.supporter_id supporter_id) options

  unfoldable pub get_tips_by_wallet : String → TipFilterOptions → Action Database Paginated
  unfolding get_page
  get_tips_by_wallet wallet_address options =
      get_page
        (λ tip.
          tip.columns.receiver_wallet == wallet_address
          || tip.columns.sender_wallet == wallet_address)
        options
