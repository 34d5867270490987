-- ===== src/Tips/Verify.antt =====
-- `verifyTipOnChain` of src/tips/tips.service.ts, with the cache that it keeps in memory where no
-- Redis is configured. The time of the read of the cache and that of the write are arguments.
pub mod Outcome
pub mod Cached
mod Tests
use Prim.Native.String
use stellar_tip_api.Common.{
  ℕ, zero, suc, ◌+◌, Bool, true, false, not, ◌&&◌, ◌||◌, String, ◌==◌, ◌≡◌, ◌↔◌, Option, none, some,
  List, [], ◌∷◌, if◌then◌else◌, leb, truthy, or_text,
}
use stellar_tip_api.Common.Num.{Num, num, eq_num}
use stellar_tip_api.Common.Value.{
  Value, Fields, field, end, string, number, bool, object, undefined, null,
}
use stellar_tip_api.Http.{
  Result, ok, throws, Action, pure, lift, not_found, failure, and_then, require_some, ◌>>=◌, ◌>>◌,
}
use stellar_tip_api.Entities.{Tip, User, asset_name}
use stellar_tip_api.Database.{Orm, Database, Has, find_tip, find_user}
use stellar_tip_api.Notifications.{notify_discrepancy_detected}
use stellar_tip_api.Stellar.Payment.{
  Payment, ContractTip, Chain, unverified, verify_payment, verify_tip_on_contract,
}
use stellar_tip_api.Tips.Verification.{
  Verification, Entry, verification_cache_ttl_ms, cache_key, lookup, without, same_text, or_zero,
  text_value, number_value, value_of_payment, value_of_contract, discrepancy,
}

pub record Verifier : Type 0 where
  pub orm : Orm
  pub chain : Chain
  -- the tips of a creator by date and id
  pub history : String → List Tip → List Tip
  pub history_iff :
      (creator_id : String) (rows : List Tip) (tip : Tip)
      → Has tip (history creator_id rows)
        ↔ (Has tip rows × ((tip.columns.creator_id == creator_id) ≡ true))
  -- `JSON.stringify` of a result, and `JSON.parse`
  pub stringify : Verification → String
  pub parse : String → Verification

pub record State : Type 0 where
  pub db : Database
  pub cache : List Entry

-- an action on the tables
abbrev pub on_db : {A : Type 0} → Action Database A → Action State A
on_db m s = let (r, db) = m s.db in (r, record s { db = db })

-- `findIndex` by id
unfoldable pub index_of : String → List Tip → Option ℕ
index_of id [] = none
index_of id (tip ∷ tips) =
    let later = index_of id tips in
    if tip.id == id then some 0 else elim later [ none ↦ none | some n ↦ some (suc n) ]

module _ (verifier : Verifier) where
  -- `new Date(s).toISOString()`, which throws on an invalid date
  abbrev pub iso_of : Option ℕ → Result String
  iso_of none = throws failure
  iso_of (some date) = ok (verifier.chain.js.to_iso_string date)

  unfoldable pub timestamp_match : Payment → ContractTip → Result Bool
  timestamp_match horizon contract =
      let js = verifier.chain.js in
      if not (truthy horizon.timestamp) || not (truthy contract.timestamp)
      then ok true
      else and_then (iso_of (js.parse_date (or_text horizon.timestamp ""))) λ paid.
        and_then (iso_of (js.parse_date (or_text contract.timestamp ""))) λ told. ok (paid == told)

  unfoldable pub matches_tip : Tip → Payment → ContractTip → Bool → Bool
  matches_tip tip horizon contract times =
      horizon.verified
      && contract.exists
      && same_text horizon.from tip.columns.sender_wallet
      && same_text horizon.to tip.columns.receiver_wallet
      && eq_num (or_zero horizon.amount) tip.columns.amount
      && times
      && contract.from == tip.columns.sender_wallet
      && contract.to == tip.columns.receiver_wallet
      && eq_num contract.amount tip.columns.amount

  -- what Horizon says of the tip's hash, where it has one
  abbrev pub horizon_of : Tip → Payment
  horizon_of tip =
      if truthy tip.columns.transaction_hash
      then verify_payment verifier.chain (or_text tip.columns.transaction_hash "")
      else unverified

  abbrev pub wallet_of : Option User → Option String
  wallet_of none = none
  wallet_of (some creator) = creator.columns.wallet_address

  abbrev pub creator_address_of : Option User → Tip → String
  creator_address_of creator tip = or_text (wallet_of creator) tip.columns.receiver_wallet

  unfoldable pub verify_tip : Tip → ℕ → String → Result Verification
  unfolding timestamp_match matches_tip
  verify_tip tip tip_index creator_address =
      let horizon = horizon_of tip in
      let contract = verify_tip_on_contract verifier.chain creator_address (num tip_index) in
      and_then (timestamp_match horizon contract) λ times. ok (record {
        tip_id = tip.id;
        tip_index = tip_index;
        horizon = horizon;
        contract = contract;
        matches = matches_tip tip horizon contract times;
      })

  unfoldable pub notify_unless : Bool → Tip → String → Verification → Action State (Unit {0})
  notify_unless true tip creator_address v = pure tt
  notify_unless false tip creator_address v = do
    on_db (
        notify_discrepancy_detected verifier.orm tip.columns.creator_id
          (discrepancy tip creator_address v))
    pure tt

  abbrev pub write_cache : ℕ → String → Verification → Action State (Unit {0})
  write_cache now tip_id v s = (
    ok tt,
    record s {
      cache =
          record {
            key = cache_key tip_id;
            expires_at = now + verification_cache_ttl_ms;
            payload = verifier.stringify v;
          }
          ∷ without (cache_key tip_id) s.cache;
    },
  )

  abbrev pub fresh_entry : ℕ → String → Option Entry → Action State (Option Verification)
  fresh_entry now key none s = (ok none, s)
  fresh_entry now key (some e) s =
      if leb e.expires_at now
      then (ok none, record s { cache = without key s.cache })
      else (ok (some (verifier.parse e.payload)), s)

  unfoldable pub read_cache : ℕ → String → Action State (Option Verification)
  read_cache now tip_id s = fresh_entry now (cache_key tip_id) (lookup (cache_key tip_id) s.cache) s

  -- the part behind the cache
  unfoldable pub compute : ℕ → String → Action State Verification
  unfolding index_of verify_tip notify_unless
  compute written id = do
    found ← on_db (find_tip verifier.orm (λ t. t.id == id))
    tip ← require_some found (not_found "Tip not found")
    creator ← on_db (find_user verifier.orm (λ u. u.id == tip.columns.creator_id))
    tips ← (λ s. (ok (verifier.history tip.columns.creator_id s.db.tips), s))
    tip_index ← require_some (index_of tip.id tips) (not_found "Tip not found in creator history")
    v ← lift (verify_tip tip tip_index (creator_address_of creator tip))
    notify_unless v.matches tip (creator_address_of creator tip) v
    write_cache written id v
    pure v

  unfoldable pub answer_or : ℕ → String → Option Verification → Action State Verification
  unfolding compute
  answer_or written id (some v) = pure v
  answer_or written id none = compute written id

  unfoldable pub verify_tip_on_chain : ℕ → ℕ → String → Action State Verification
  unfolding read_cache answer_or
  verify_tip_on_chain now written id = do cached ← read_cache now id; answer_or written id cached
