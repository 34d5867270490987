-- ===== src/Tips/Query/Tests.antt =====
-- The paginated reads of src/tips/tips.service.ts at concrete requests.
use stellar_tip_api.Common.{
  ℕ, suc, ◌≤◌, Bool, true, String, ◌==◌, ◌≡◌, ◌≢◌, refl, none, some, [], ◌∷◌, arith, upper_is,
}
use stellar_tip_api.Common.Num.{num, pos_inf}
use stellar_tip_api.Http.{ok}
use stellar_tip_api.Entities.{Tip, TipAsset, TipStatus, TipWithdrawalStatus}
use stellar_tip_api.Database.{Database}
use stellar_tip_api.Fixtures.{empty_database, small_js}
use stellar_tip_api.Fixtures.Readers.{list_tip_reader}
use stellar_tip_api.Tips.Query.{
  TipFilterOptions, Range, anything, FilterQuery, page_of, limit_of, build_filter_query,
}
use stellar_tip_api.Tips.Query.Bounds.{IsBounded, query-IsBounded}
use stellar_tip_api.Tips.Query.Read.{Paginated, get_page, get_tips_by_creator}
use stellar_tip_api.Tips.Query.Read.Pages.{all_tips, IsSlice, page-IsSlice}

abbrev options : TipFilterOptions
options = record {
  page = some (num 2);
  limit = some (num 1);
  start_date = none;
  end_date = none;
  asset = some "xlm";
  min_amount = some (num 1);
  max_amount = none;
  sort_by = none;
  sort_order = some "ASC";
}

abbrev tip_of : String → String → Tip
tip_of id creator = record {
  id = id;
  created_at = 0;
  columns = record {
    creator_id = creator;
    supporter_id = none;
    sender_wallet = "GB";
    receiver_wallet = "GA";
    amount = num 5;
    asset = TipAsset.xlm;
    asset_issuer = none;
    message = "";
    transaction_hash = none;
    status = TipStatus.pending;
    withdrawal_status = TipWithdrawalStatus.none;
    withdrawal_transaction_hash = none;
  };
}

abbrev stored : Database
stored = record empty_database {
  tips = tip_of "t1" "u1" ∷ tip_of "t2" "u2" ∷ tip_of "t3" "u1" ∷ tip_of "t4" "u1" ∷ [];
}

abbrev query : FilterQuery
query = record {
  created_at = anything;
  asset = some TipAsset.xlm;
  amount = Range.at_least (num 1);
  sort_by = "createdAt";
  sort_order = "ASC";
  skip = num 1;
  take = num 1;
}

built : build_filter_query small_js options ≡ ok query
unfolding build_filter_query upper_is
built = refl

query-IsBounded_example : IsBounded options query
query-IsBounded_example = query-IsBounded small_js options query built

two_ne_inf : page_of options ≢ pos_inf
two_ne_inf h = ground arith

abbrev second_page : Paginated
second_page = record {
  items = tip_of "t3" "u1" ∷ [];
  total = 3;
  page = num 2;
  limit = num 1;
  total_pages = num 3;
  has_next_page = true;
  has_previous_page = true;
}

read_run :
    get_tips_by_creator small_js list_tip_reader "u1" options stored ≡ (ok second_page, stored)
unfolding get_tips_by_creator build_filter_query upper_is
read_run = refl

abbrev by_creator : Tip → Bool
by_creator tip = tip.columns.creator_id == "u1"

page_run : get_page small_js list_tip_reader by_creator options stored ≡ (ok second_page, stored)
unfolding get_page build_filter_query upper_is
page_run = refl

page-IsSlice_example :
    (q : FilterQuery) × (before rows : ℕ) × (build_filter_query small_js options ≡ ok q)
    × (page_of options ≡ num (suc before))
    × (limit_of options ≡ num (suc rows))
    × (suc rows ≤ 100)
    × IsSlice small_js list_tip_reader
        (all_tips small_js list_tip_reader by_creator q stored)
        before
        (suc rows)
        second_page
    × (stored ≡ stored)
page-IsSlice_example =
    page-IsSlice small_js list_tip_reader by_creator options stored stored second_page two_ne_inf
      page_run
