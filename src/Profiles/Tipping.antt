-- ===== src/Profiles/Tipping.antt =====
-- What anyone reads of a profile: `getProfile`, `getProfileById` and `getTippingInfo` of
-- src/profiles/profiles.service.ts. The sums that the database makes of rows are parameters.
pub mod Messages
mod Tests
use stellar_tip_api.Common.{
  ℕ, Bool, true, false, ◌&&◌, String, ◌==◌, ◌≡◌, ◌≤◌, ◌⊎◌, [], ◌∷◌, Option, none, some, List, map,
  if◌then◌else◌, non_empty, or_text, truthy, column_is,
}
use stellar_tip_api.Common.Num.{Num}
use stellar_tip_api.Common.Lists.{length}
use stellar_tip_api.Http.{Action, pure, not_found, require_some, ◌>>=◌}
use stellar_tip_api.Entities.{User, UserColumns, SocialLinks, Tip, TipStatus, TipAsset}
use stellar_tip_api.Database.{Orm, Database, Has, find_user}

-- The columns that are selected; `getProfileById` leaves the links out.
pub record PublicProfile : Type 0 where
  pub id : String
  pub username : String
  pub display_name : Option String
  pub bio : Option String
  pub avatar_url : Option String
  pub wallet_address : Option String
  pub social_links : Option SocialLinks
  pub created_at : ℕ

abbrev pub public_of : Option SocialLinks → User → PublicProfile
public_of links user = record {
  id = user.id;
  username = user.columns.username;
  display_name = user.columns.display_name;
  bio = user.columns.bio;
  avatar_url = user.columns.avatar_url;
  wallet_address = user.columns.wallet_address;
  social_links = links;
  created_at = user.created_at;
}

abbrev pub is_completed : Tip → Bool
is_completed tip = elim (tip.columns.status) [ TipStatus.completed ↦ true | _ ↦ false ]

-- A tip as it is shown with the others of the page.
pub record RecentMessage : Type 0 where
  pub amount : Num
  pub asset : TipAsset
  pub message : Option String
  pub created_at : ℕ

abbrev pub message_of : Tip → RecentMessage
message_of tip = record {
  amount = tip.columns.amount;
  asset = tip.columns.asset;
  message = non_empty (some tip.columns.message);
  created_at = tip.created_at;
}

-- A row of a sum, as the texts that the driver gives.
pub record RawSum : Type 0 where
  pub wallet_address : String
  pub total_amount : Option String
  pub total_tips : Option String

pub record TopSupporter : Type 0 where
  pub wallet_address : String
  pub total_amount : Num
  pub tip_count : Num

pub record TippingInfo : Type 0 where
  pub display_name : Option String
  pub username : String
  pub bio : Option String
  pub avatar_url : Option String
  pub wallet_address : Option String
  pub total_tips_received : Num
  pub total_amount_received : Num
  pub top_supporter : Option TopSupporter
  pub recent_messages : List RecentMessage

-- Greater values first.
abbrev pub IsDescending : (Tip → ℕ) → List Tip → Type 0
IsDescending column [] = Unit
IsDescending column (x ∷ xs) = ((y : Tip) → Has y xs → column y ≤ column x) × IsDescending column xs

-- The reads of the tips, and the runtime's readers of numbers.
pub record TippingReader : Type 0 where
  -- `getRawOne` of the sum of the rows, and of the supporter with the most
  pub sum : (Tip → Bool) → List Tip → Option RawSum
  pub top : (Tip → Bool) → List Tip → Option RawSum
  -- `find({ where, order, take })`: at most that many of the rows that the test takes, those with the
  -- greatest values of the column, in descending order
  pub find : (Tip → Bool) → (Tip → ℕ) → ℕ → List Tip → List Tip
  pub find_some :
      (p : Tip → Bool) (column : Tip → ℕ) (limit : ℕ) (rows : List Tip) (tip : Tip)
      → Has tip (find p column limit rows)
      → Has tip rows × (p tip ≡ true)
  pub find_bounded :
      (p : Tip → Bool) (column : Tip → ℕ) (limit : ℕ) (rows : List Tip)
      → length (find p column limit rows) ≤ limit
  pub find_ordered :
      (p : Tip → Bool) (column : Tip → ℕ) (limit : ℕ) (rows : List Tip)
      → IsDescending column (find p column limit rows)
  pub find_rest :
      (p : Tip → Bool) (column : Tip → ℕ) (limit : ℕ) (rows : List Tip) (tip : Tip)
      → Has tip rows
      → p tip ≡ true
      → Has tip (find p column limit rows)
        ⊎ ((length (find p column limit rows) ≡ limit)
            × ((x : Tip) → Has x (find p column limit rows) → column tip ≤ column x))
  pub parse_int : String → Num
  pub parse_float : String → Num

-- `tip.receiverWallet = :wallet` and the status: nothing equals a null parameter
abbrev pub to_wallet : Option String → Tip → Bool
to_wallet wallet tip = column_is wallet tip.columns.receiver_wallet && is_completed tip

-- a value of a `where`, which TypeORM leaves out where it is null
abbrev pub equals_or_omitted : Option String → String → Bool
equals_or_omitted none t = true
equals_or_omitted (some s) t = t == s

-- the `where` of the recent tips
abbrev pub recent_where : Option String → Tip → Bool
recent_where wallet tip = equals_or_omitted wallet tip.columns.receiver_wallet && is_completed tip

abbrev pub total_tips_of : Option RawSum → String
total_tips_of none = "0"
total_tips_of (some r) = or_text r.total_tips "0"

abbrev pub total_amount_of : Option RawSum → String
total_amount_of none = "0"
total_amount_of (some r) = or_text r.total_amount "0"

module _ (orm : Orm) (reader : TippingReader) where
  abbrev pub find_active : (User → Bool) → Action Database (Option User)
  find_active p = find_user orm (λ u. p u && u.columns.is_active)

  unfoldable pub get_profile : String → Action Database PublicProfile
  get_profile username = do
    found ← find_active (λ u. u.columns.username == username)
    user ← require_some found (not_found "Profile not found")
    pure (public_of user.columns.social_links user)

  unfoldable pub get_profile_by_id : String → Action Database PublicProfile
  get_profile_by_id id = do
    found ← find_active (λ u. u.id == id)
    user ← require_some found (not_found "Profile not found")
    pure (public_of none user)

  abbrev pub supporter_of : Option RawSum → Option TopSupporter
  supporter_of none = none
  supporter_of (some r) = some (record {
    wallet_address = r.wallet_address;
    total_amount = reader.parse_float (or_text r.total_amount "0");
    tip_count = reader.parse_int (or_text r.total_tips "0");
  })

  abbrev pub info_of : User → List Tip → TippingInfo
  info_of user tips =
      let wallet = user.columns.wallet_address in
      let stats = reader.sum (to_wallet wallet) tips in
      record {
        display_name = user.columns.display_name;
        username = user.columns.username;
        bio = user.columns.bio;
        avatar_url = user.columns.avatar_url;
        wallet_address = non_empty wallet;
        total_tips_received = reader.parse_int (total_tips_of stats);
        total_amount_received = reader.parse_float (total_amount_of stats);
        top_supporter = supporter_of (
            reader.top (λ tip. to_wallet wallet tip && truthy (some tip.columns.sender_wallet))
              tips);
        recent_messages =
            map message_of (reader.find (recent_where wallet) (λ tip. tip.created_at) 5 tips);
      }

  unfoldable pub get_tipping_info : String → Action Database TippingInfo
  get_tipping_info username = do
    found ← find_active (λ u. u.columns.username == username)
    user ← require_some found (not_found "Profile not found")
    λ db. pure (info_of user db.tips) db
