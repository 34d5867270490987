-- ===== src/Profiles/Tipping/Tests.antt =====
-- The tipping page of a user with no wallet (src/profiles/profiles.service.ts).
use stellar_tip_api.Common.{true, ◌≡◌, refl, none, some, List, [], ◌∷◌, map}
use stellar_tip_api.Common.Num.{num}
use stellar_tip_api.Common.Lists.{length-take}
use stellar_tip_api.Http.{ok}
use stellar_tip_api.Entities.{User, Tip, TipAsset, TipStatus, TipWithdrawalStatus}
use stellar_tip_api.Database.{Database, Has}
use stellar_tip_api.Fixtures.{list_orm, empty_database, wallet_user}
use stellar_tip_api.Fixtures.Sorted.{
  sorted, insert, greatest, greatest_some, greatest_ordered, greatest_rest,
}
use stellar_tip_api.Profiles.Tipping.{TippingReader, TippingInfo, message_of, get_tipping_info}
use stellar_tip_api.Profiles.Tipping.Messages.{IsReceived, AreNewest, messages_shown}

abbrev reader : TippingReader
reader = record {
  sum = λ p rows. none;
  top = λ p rows. none;
  find = greatest;
  find_some = greatest_some;
  find_bounded = λ p column limit rows. length-take limit _;
  find_ordered = greatest_ordered;
  find_rest = greatest_rest;
  parse_int = λ s. num 0;
  parse_float = λ s. num 0;
}

abbrev no_wallet : User
no_wallet = record (wallet_user "u1" "") {
  columns = record ((wallet_user "u1" "").columns) { wallet_address = none };
}

-- A tip to someone else.
abbrev private_tip : Tip
private_tip = record {
  id = "t1";
  created_at = 0;
  columns = record {
    creator_id = "u2";
    supporter_id = none;
    sender_wallet = "GC";
    receiver_wallet = "GB";
    amount = num 5;
    asset = TipAsset.xlm;
    asset_issuer = none;
    message = "for you";
    transaction_hash = some "h1";
    status = TipStatus.completed;
    withdrawal_status = TipWithdrawalStatus.none;
    withdrawal_transaction_hash = none;
  };
}

abbrev stored : Database
stored = record empty_database { users = no_wallet ∷ []; tips = private_tip ∷ [] }

abbrev shown : TippingInfo
shown = record {
  display_name = none;
  username = "ann";
  bio = none;
  avatar_url = none;
  wallet_address = none;
  total_tips_received = num 0;
  total_amount_received = num 0;
  top_supporter = none;
  recent_messages = message_of private_tip ∷ [];
}

shows : get_tipping_info list_orm reader "ann" stored ≡ (ok shown, stored)
unfolding get_tipping_info sorted insert
shows = refl

messages_shown_example :
    (user : User) × Has user stored.users
    × (user.columns.username ≡ "ann")
    × (user.columns.is_active ≡ true)
    × (stored ≡ stored)
    × ((tips : List Tip) × (shown.recent_messages ≡ map message_of tips)
        × AreNewest 5 (IsReceived user.columns.wallet_address) stored.tips tips)
messages_shown_example = messages_shown list_orm reader "ann" stored stored shown shows
