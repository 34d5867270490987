-- ===== src/Tips/Listing/Owners.antt =====
-- Whose tips the listings of src/tips/tips.controller.ts show.
use stellar_tip_api.Common.{
  true, ◌||◌, String, ◌==◌, eq_iff, ◌≡◌, ◌≢◌, ◌⊎◌, inl, inr, Option, none, some, ap, arith,
  column_is, Bool-cases,
}
use stellar_tip_api.Common.Num.{pos_inf}
use stellar_tip_api.Common.Runtime.{Js}
use stellar_tip_api.Http.{ok, Action}
use stellar_tip_api.Entities.{Tip}
use stellar_tip_api.Database.{Database, Has}
use stellar_tip_api.Tips.Query.{page_of}
use stellar_tip_api.Tips.Query.Read.{
  TipReader, Paginated, get_tips_by_creator, get_tips_by_supporter, get_tips_by_wallet,
}
use stellar_tip_api.Tips.Query.Read.Pages.{listed_on_page}
use stellar_tip_api.Tips.Listing.{
  TipQuery, filter_options, get_my_received_tips, get_my_sent_tips, get_wallet_tips,
}

pub data Listing : Type 0 where
  received sent of_wallet : String → Listing

-- The tip is one that the listing is for.
abbrev pub Concerns : Listing → Tip → Type 0
Concerns (received user_id) tip = tip.columns.creator_id ≡ user_id
Concerns (sent user_id) tip = tip.columns.supporter_id ≡ some user_id
Concerns (of_wallet wallet) tip =
    (tip.columns.receiver_wallet ≡ wallet) ⊎ (tip.columns.sender_wallet ≡ wallet)

column_is_inv : (c : Option String) (s : String) → column_is c s ≡ true → c ≡ some s
column_is_inv none s h = ground (arith, h)
column_is_inv (some c) s h = ap some ((eq_iff c s).0 h)

wallet_inv :
    (a b wallet : String) → (a == wallet || b == wallet) ≡ true → (a ≡ wallet) ⊎ (b ≡ wallet)
wallet_inv a b wallet h = elim (Bool-cases (a == wallet)) [
  | inl t ↦ inl ((eq_iff a wallet).0 t)
  | inr f ↦ inr ((eq_iff b wallet).0 (ground (arith, h, f)))
]

module _ (js : Js) (reader : TipReader) where
  abbrev pub list_tips : Listing → TipQuery → Action Database Paginated
  list_tips (received user_id) query = get_my_received_tips js reader user_id query
  list_tips (sent user_id) query = get_my_sent_tips js reader user_id query
  list_tips (of_wallet wallet) query = get_wallet_tips js reader wallet query

  -- A finite page of any of the three listings holds stored tips of the user, as its creator or
  -- its supporter, or of the wallet, on either side, whatever filters are asked for.
  pub listed_tips_belong :
      (listing : Listing) (query : TipQuery) (db db' : Database) (page : Paginated) (tip : Tip)
      → page_of (filter_options query) ≢ pos_inf
      → list_tips listing query db ≡ (ok page, db')
      → Has tip page.items
      → Has tip db.tips × Concerns listing tip
  unfolding get_my_received_tips get_my_sent_tips get_wallet_tips get_tips_by_creator
      get_tips_by_supporter get_tips_by_wallet
  listed_tips_belong (received user_id) query db db' page tip finite h listed =
      let (stored, taken) =
        listed_on_page js reader _ (filter_options query) db db' page tip finite h listed in
      (stored, (eq_iff tip.columns.creator_id user_id).0 taken)
  listed_tips_belong (sent user_id) query db db' page tip finite h listed =
      let (stored, taken) =
        listed_on_page js reader _ (filter_options query) db db' page tip finite h listed in
      (stored, column_is_inv tip.columns.supporter_id user_id taken)
  listed_tips_belong (of_wallet wallet) query db db' page tip finite h listed =
      let (stored, taken) =
        listed_on_page js reader _ (filter_options query) db db' page tip finite h listed in
      (stored, wallet_inv tip.columns.receiver_wallet tip.columns.sender_wallet wallet taken)
