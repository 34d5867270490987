-- ===== src/Tips/Verification.antt =====
-- The result of `verifyTipOnChain` of src/tips/tips.service.ts, the entries of its cache, and what the
-- creator is told of a discrepancy.
use Prim.Native.String
use stellar_tip_api.Common.{
  ℕ, Bool, false, String, ◌==◌, Option, none, some, List, [], ◌∷◌, if◌then◌else◌,
}
use stellar_tip_api.Common.Num.{Num, num}
use stellar_tip_api.Common.Value.{
  Value, Fields, field, end, string, number, bool, object, undefined, null,
}
use stellar_tip_api.Entities.{Tip, asset_name}
use stellar_tip_api.Stellar.Payment.{Payment, ContractTip}

-- `OnChainTipVerificationResult`
pub record Verification : Type 0 where
  pub tip_id : String
  pub tip_index : ℕ
  pub horizon : Payment
  pub contract : ContractTip
  pub matches : Bool

pub record Entry : Type 0 where
  pub key : String
  pub expires_at : ℕ
  pub payload : String

abbrev pub verification_cache_ttl_ms : ℕ
verification_cache_ttl_ms = 60_000

abbrev pub cache_key : String → String
cache_key tip_id = String.◌++◌ "tips:verify-onchain:" tip_id

abbrev pub lookup : String → List Entry → Option Entry
lookup key [] = none
lookup key (e ∷ es) = if e.key == key then some e else lookup key es

-- `map.delete(key)`
abbrev pub without : String → List Entry → List Entry
without key [] = []
without key (e ∷ es) = if e.key == key then without key es else e ∷ without key es

-- `a === b` of a text that may be absent
abbrev pub same_text : Option String → String → Bool
same_text none t = false
same_text (some s) t = s == t

abbrev pub or_zero : Option Num → Num
or_zero none = num 0
or_zero (some n) = n

abbrev pub text_value : Option String → Value → Value
text_value none absent = absent
text_value (some s) absent = string s

abbrev pub number_value : Option Num → Value
number_value none = undefined
number_value (some n) = number n

abbrev pub value_of_payment : Payment → Value
value_of_payment p = object (
    field "verified" (bool p.verified) (
      field "from" (text_value p.from undefined) (
        field "to" (text_value p.to undefined) (
          field "amount" (number_value p.amount) (
            field "asset" (text_value p.asset undefined)
              (field "timestamp" (text_value p.timestamp undefined) end))))))

abbrev pub value_of_contract : ContractTip → Value
value_of_contract c = object (
    field "exists" (bool c.exists) (
      field "from" (string c.from) (
        field "to" (string c.to) (
          field "amount" (number c.amount) (field "timestamp" (text_value c.timestamp null) end)))))

-- the metadata of the notification
abbrev pub discrepancy : Tip → String → Verification → Fields
discrepancy tip creator_address v = field "tipId" (string tip.id) (
    field "tipIndex" (number (num v.tip_index)) (
      field "creatorAddress" (string creator_address) (
        field "senderWallet" (string tip.columns.sender_wallet) (
          field "receiverWallet" (string tip.columns.receiver_wallet) (
            field "amount" (number tip.columns.amount) (
              field "asset" (string (asset_name tip.columns.asset)) (
                field "transactionHash" (text_value tip.columns.transaction_hash null) (
                  field "horizon" (value_of_payment v.horizon)
                    (field "contract" (value_of_contract v.contract) end)))))))))
