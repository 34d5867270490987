-- ===== src/Entities.antt =====
-- The entities of src/entities: what a row of each table holds. `Entity` has the two columns
-- that the database generates, `id` and `createdAt`; the others are the columns of the program.
-- A relation is the id that it joins on. `updatedAt` and the reverse relations are left out: the
-- program does not read them.
use stellar_tip_api.Common.{ℕ, Bool, true, false, String, Option}
use stellar_tip_api.Common.Num.{Num}
use stellar_tip_api.Common.Value.{Fields}

pub record Entity (C : Type 0) : Type 0 where
  pub id : String
  pub created_at : ℕ
  pub columns : C

pub data TipStatus : Type 0 where
  pending completed failed : TipStatus

pub data TipWithdrawalStatus : Type 0 where
  none pending completed failed : TipWithdrawalStatus

pub data TipAsset : Type 0 where
  xlm usdc : TipAsset

pub record TipColumns : Type 0 where
  pub creator_id : String
  pub supporter_id : Option String
  pub sender_wallet : String
  pub receiver_wallet : String
  pub amount : Num
  pub asset : TipAsset
  pub asset_issuer : Option String
  pub message : String
  pub transaction_hash : Option String
  pub status : TipStatus
  pub withdrawal_status : TipWithdrawalStatus
  pub withdrawal_transaction_hash : Option String

pub data AuthMethod : Type 0 where
  email stellar : AuthMethod

pub data UserRole : Type 0 where
  user admin : UserRole

pub record SocialLinks : Type 0 where
  pub twitter : Option String
  pub github : Option String
  pub youtube : Option String
  pub website : Option String

pub record UserColumns : Type 0 where
  pub username : String
  pub display_name : Option String
  pub bio : Option String
  pub avatar_url : Option String
  pub social_links : Option SocialLinks
  pub email : Option String
  pub password : Option String
  pub wallet_address : Option String
  pub auth_method : AuthMethod
  pub role : UserRole
  pub is_active : Bool

pub data NotificationType : Type 0 where
  tip_received discrepancy_detected : NotificationType

pub record NotificationColumns : Type 0 where
  pub user_id : String
  pub kind : NotificationType
  pub title : String
  pub message : String
  pub is_read : Bool
  pub metadata : Option Fields

pub record RefreshTokenColumns : Type 0 where
  pub user_id : String
  pub token : String
  pub expires_at : ℕ
  pub is_revoked : Bool

abbrev pub Tip : Type 0
Tip = Entity TipColumns

abbrev pub User : Type 0
User = Entity UserColumns

abbrev pub Notification : Type 0
Notification = Entity NotificationColumns

abbrev pub RefreshToken : Type 0
RefreshToken = Entity RefreshTokenColumns

-- The string of an enum member, as it is stored.
abbrev pub asset_name : TipAsset → String
asset_name xlm = "XLM"
asset_name usdc = "USDC"

abbrev pub is_usdc : TipAsset → Bool
is_usdc xlm = false
is_usdc usdc = true
