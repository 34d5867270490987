-- ===== src/Tips/Verify/Tests.antt =====
-- `verifyTipOnChain` of src/tips/tips.service.ts at concrete tips.
use stellar_tip_api.Common.{
  Bool, true, String, ◌==◌, ◌≡◌, refl, inl, inr, none, some, List, [], ◌∷◌, arith, if◌then◌else◌,
  Bool-cases,
}
use stellar_tip_api.Common.Num.{num, pos}
use stellar_tip_api.Common.Value.{Value, string, number, bigint, array, cons, nil, null, undefined}
use stellar_tip_api.Common.Runtime.{Js}
use stellar_tip_api.Http.{ok, throws, failure}
use stellar_tip_api.Entities.{Tip, TipAsset, TipStatus, TipWithdrawalStatus}
use stellar_tip_api.Database.{Has}
use stellar_tip_api.Fixtures.{list_orm, empty_database, small_js}
use stellar_tip_api.Stellar.Payment.{
  Transaction, Chain, verify_tip_on_contract, verify_payment, extract_result,
}
use stellar_tip_api.Tips.Verify.{Verifier, State, timestamp_match, verify_tip, verify_tip_on_chain}
use stellar_tip_api.Tips.Verification.{Verification}
use stellar_tip_api.Tips.Verify.Cached.{answered_again}

-- Knows the number 5 and the date 12:00, and prints integers as 17.
abbrev js : Js
js = record small_js { string_of_bigint = λ n. "17" }

abbrev payment : Transaction
payment = record {
  operations = some (
      record {
        to = string "GA";
        destination = undefined;
        amount = string "5";
        starting_balance = undefined;
        asset_type = none;
        asset_code = none;
        asset_issuer = none;
      }
      ∷ []);
  source_account = string "GB";
  created_at = string "12:00";
  created_at_camel = undefined;
}

abbrev chain_with : Value → Chain
chain_with date = record {
  js = js;
  transaction = λ hash. ok (some payment);
  contract_id = some "C1";
  contract_reads = λ address index. ok (
    number (num 9),
    number (num 1),
    array (cons (string "GB") (cons (string "GA") (cons (number (num 5)) (cons date nil)))),
  );
}

abbrev kept : String → List Tip → List Tip
kept id [] = []
kept id (tip ∷ tips) = if tip.columns.creator_id == id then tip ∷ kept id tips else kept id tips

kept_sound :
    (id : String) (rows : List Tip) (tip : Tip)
    → Has tip (kept id rows)
    → Has tip rows × ((tip.columns.creator_id == id) ≡ true)
kept_sound id [] tip h = elim h [ ]
kept_sound id (x ∷ xs) tip h = elim (Bool-cases (x.columns.creator_id == id)) [
  | inl t ↦ elim (rw t at h) [
    | inl e ↦ (inl e, rw e t)
    | inr m ↦ let (n, s) = kept_sound id xs tip m in (inr n, s)
  ]
  | inr f ↦ let (n, s) = kept_sound id xs tip (rw f at h) in (inr n, s)
]

kept_complete :
    (id : String) (rows : List Tip) (tip : Tip)
    → Has tip rows
    → (tip.columns.creator_id == id) ≡ true
    → Has tip (kept id rows)
kept_complete id [] tip h t = elim h [ ]
kept_complete id (x ∷ xs) tip (inl e) t =
    let taken : (x.columns.creator_id == id) ≡ true = rw (← e) t in rw taken (inl e)
kept_complete id (x ∷ xs) tip (inr m) t = elim (Bool-cases (x.columns.creator_id == id)) [
  | inl taken ↦ rw taken (inr (kept_complete id xs tip m t))
  | inr f ↦ rw f (kept_complete id xs tip m t)
]

abbrev result : Bool → Verification
result matches = record {
  tip_id = "t1";
  tip_index = 0;
  horizon = record {
    verified = true;
    from = some "GB";
    to = some "GA";
    amount = some (num 5);
    asset = some "XLM";
    timestamp = some "12:00";
  };
  contract = record { exists = true; from = "GB"; to = "GA"; amount = num 5; timestamp = none };
  matches = matches;
}

abbrev verifier_with : Value → Verifier
verifier_with date = record {
  orm = list_orm;
  chain = chain_with date;
  history = kept;
  history_iff = λ id rows tip. (kept_sound id rows tip, λ h. kept_complete id rows tip h.0 h.1);
  stringify = λ v. v.tip_id;
  parse = λ payload. result true;
}

abbrev verifier : Verifier
verifier = verifier_with null

abbrev the_tip : Tip
the_tip = record {
  id = "t1";
  created_at = 0;
  columns = record {
    creator_id = "u1";
    supporter_id = none;
    sender_wallet = "GB";
    receiver_wallet = "GA";
    amount = num 5;
    asset = TipAsset.xlm;
    asset_issuer = none;
    message = "";
    transaction_hash = some "h1";
    status = TipStatus.completed;
    withdrawal_status = TipWithdrawalStatus.none;
    withdrawal_transaction_hash = none;
  };
}

abbrev stored : State
stored = record { db = record empty_database { tips = the_tip ∷ [] }; cache = [] }

abbrev after_first : State
after_first = record stored {
  cache = record { key = "tips:verify-onchain:t1"; expires_at = 60_020; payload = "t1" } ∷ [];
}

asked : verify_tip_on_chain verifier 10 20 "t1" stored ≡ (ok (result true), after_first)
unfolding verify_tip_on_chain verify_payment verify_tip_on_contract extract_result
asked = refl

answered_again_example :
    verify_tip_on_chain verifier 50_000 50_001 "t1" after_first ≡ (ok (result true), after_first)
answered_again_example =
    answered_again verifier 10 20 50_000 50_001 "t1" stored after_first (result true) refl asked
      (omega arith)

-- A contract that dates the tip by an integer, where JavaScript reads no date in its digits.
integer_date_throws : verify_tip (verifier_with (bigint (pos 17))) the_tip 0 "GA" ≡ throws failure
unfolding verify_tip verify_payment verify_tip_on_contract extract_result timestamp_match
integer_date_throws = refl
