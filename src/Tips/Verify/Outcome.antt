-- ===== src/Tips/Verify/Outcome.antt =====
-- What `verifyTipOnChain` of src/tips/tips.service.ts finds and leaves, behind its cache.
use stellar_tip_api.Common.{true, false, ◌≡◌, some, ◌∷◌, arith}
use stellar_tip_api.Common.Num.{eq_num}
use stellar_tip_api.Http.{ok}
use stellar_tip_api.Entities.{Tip, Notification, discrepancy_detected}
use stellar_tip_api.Database.{Database}
use stellar_tip_api.Tips.Verify.{Verifier, timestamp_match}
use stellar_tip_api.Tips.Verification.{Verification, or_zero}

pub ok-injective : {A : Type 0} {a b : A} → ok a ≡ ok b → a ≡ b
ok-injective h = ground arith

module _ (verifier : Verifier) where
  -- Horizon and the contract both tell of the tip: the payment of its hash and the entry at its
  -- index are from its sender, to its receiver, and of its amount.
  pub record Agrees (tip : Tip) (v : Verification) : Type 0 where
    pub paid : v.horizon.verified ≡ true
    pub told : v.contract.exists ≡ true
    pub from : v.horizon.from ≡ some tip.columns.sender_wallet
    pub to : v.horizon.to ≡ some tip.columns.receiver_wallet
    pub amount : eq_num (or_zero v.horizon.amount) tip.columns.amount ≡ true
    pub contract_from : v.contract.from ≡ tip.columns.sender_wallet
    pub contract_to : v.contract.to ≡ tip.columns.receiver_wallet
    pub contract_amount : eq_num v.contract.amount tip.columns.amount ≡ true

  -- What a verification left in the tables: nothing where all agree, and one notification to the
  -- creator where they do not.
  pub data HasTold (tip : Tip) (v : Verification) (db db' : Database) : Type 0 where
    agreed : v.matches ≡ true → Agrees tip v → db' ≡ db → HasTold tip v db db'
    disputed :
        (n : Notification)
        → v.matches ≡ false
        → (Agrees tip v → timestamp_match verifier v.horizon v.contract ≡ ok false)
        → n.columns.user_id ≡ tip.columns.creator_id
        → n.columns.kind ≡ discrepancy_detected
        → db' ≡ record db { notifications = n ∷ db.notifications }
        → HasTold tip v db db'
