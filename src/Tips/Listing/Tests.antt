-- ===== src/Tips/Listing/Tests.antt =====
-- Listings of tips (src/tips/tips.controller.ts) after a tip was posted and confirmed.
use stellar_tip_api.Common.{ℕ, false, ◌≡◌, ◌≢◌, refl, inl, none, some, List, [], ◌∷◌, arith}
use stellar_tip_api.Common.Num.{num, pos_inf}
use stellar_tip_api.Http.{ok}
use stellar_tip_api.Entities.{Tip, TipAsset, TipStatus, TipWithdrawalStatus}
use stellar_tip_api.Database.{Database, Has}
use stellar_tip_api.Fixtures.{list_orm, empty_database, small_js, plain_crypto, wallet_user}
use stellar_tip_api.Fixtures.Readers.{list_tip_reader}
use stellar_tip_api.Stellar.Webhook.{Service}
use stellar_tip_api.Tips.Create.{TipsService, CreateTipDto, create_tip_request}
use stellar_tip_api.Tips.Create.Ingest.{beside}
use stellar_tip_api.Tips.Query.{page_of, build_filter_query}
use stellar_tip_api.Tips.Query.Read.{Paginated}
use stellar_tip_api.Tips.Listing.{TipQuery, filter_options, get_my_received_tips, get_my_sent_tips}
use stellar_tip_api.Tips.Listing.Owners.{received, list_tips, Concerns, listed_tips_belong}
use stellar_tip_api.Tips.Listing.Sent.{post, perform, perform_all, sent_tips_stay_empty}

abbrev webhook : Service
webhook = record {
  js = small_js;
  crypto = plain_crypto;
  orm = list_orm;
  webhook_secret = some "key";
  usdc_issuer = none;
  read_uuid = λ id. some id;
}

abbrev tips : TipsService
tips = beside webhook none

abbrev request : CreateTipDto
request = record {
  receiver_wallet = "GA";
  sender_wallet = some "GB";
  amount = num 5;
  message = none;
  asset = none;
  asset_issuer = none;
  transaction_hash = none;
}

abbrev start : Database
start = record empty_database { users = wallet_user "u1" "GA" ∷ wallet_user "u2" "GB" ∷ [] }

abbrev query : TipQuery
query = record {
  page = none;
  limit = none;
  start_date = none;
  end_date = none;
  asset = none;
  min_amount = none;
  max_amount = none;
  sort_by = none;
  sort_order = none;
}

abbrev after_post : Database
after_post = perform_all tips webhook (post request ∷ []) start

first_page : page_of (filter_options query) ≢ pos_inf
first_page h = ground (arith, h)

abbrev the_tip : Tip
the_tip = record {
  id = "x";
  created_at = 0;
  columns = record {
    creator_id = "u1";
    supporter_id = none;
    sender_wallet = "GB";
    receiver_wallet = "GA";
    amount = num 5;
    asset = TipAsset.xlm;
    asset_issuer = none;
    message = "";
    transaction_hash = none;
    status = TipStatus.pending;
    withdrawal_status = TipWithdrawalStatus.none;
    withdrawal_transaction_hash = none;
  };
}

abbrev page_with : List Tip → ℕ → ℕ → Paginated
page_with items total pages = record {
  items = items;
  total = total;
  page = num 1;
  limit = num 20;
  total_pages = num pages;
  has_next_page = false;
  has_previous_page = false;
}

shows_received :
    list_tips small_js list_tip_reader (received "u1") query after_post
    ≡ (ok (page_with (the_tip ∷ []) 1 1), after_post)
unfolding get_my_received_tips build_filter_query create_tip_request perform_all perform
shows_received = refl

listed_tips_belong_example : Has the_tip after_post.tips × Concerns (received "u1") the_tip
listed_tips_belong_example =
    listed_tips_belong small_js list_tip_reader (received "u1") query after_post after_post
      (page_with (the_tip ∷ []) 1 1) the_tip first_page shows_received (inl refl)

shows_none :
    get_my_sent_tips small_js list_tip_reader "u2" query after_post
    ≡ (ok (page_with [] 0 0), after_post)
unfolding get_my_sent_tips build_filter_query create_tip_request perform_all perform
shows_none = refl

no_tips : (tip : Tip) → Has tip start.tips → tip.columns.supporter_id ≡ none
no_tips tip m = elim m [ ]

sent_tips_stay_empty_example : (page_with [] 0 0).items ≡ []
sent_tips_stay_empty_example =
    sent_tips_stay_empty tips webhook small_js list_tip_reader (post request ∷ []) "u2" query start
      after_post (page_with [] 0 0) no_tips first_page shows_none
