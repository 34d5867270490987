-- ===== src/Tips/Create/Confirm.antt =====
-- `confirmTip` of src/tips/tips.service.ts.
use stellar_tip_api.Common.{String, ◌==◌, ◌≡◌, refl, eq_iff, inl, inr}
use stellar_tip_api.Http.{Exception, ok, throws, require_some-inv, require_some-throws-cases}
use stellar_tip_api.Entities.{Tip}
use stellar_tip_api.Database.{Database, Has, replace}
use stellar_tip_api.Database.Laws.{update_tip-inv, update_tip-throws, Has-replace_self}
use stellar_tip_api.Tips.Create.{TipsService, confirmed, confirm_tip}

module _ (service : TipsService) where
  pub confirmed_tip :
      (id transaction_hash : String) (db db' : Database) (saved : Tip)
      → confirm_tip service id transaction_hash db ≡ (ok saved, db')
      → (tip : Tip) × Has tip db.tips
        × (tip.id ≡ id)
        × (saved ≡ confirmed service transaction_hash tip)
        × (db' ≡ record db { tips = replace saved db.tips })
        × Has saved db'.tips
  unfolding confirm_tip
  confirmed_tip id transaction_hash db db' saved h =
      let find = service.orm.tips.find_one (λ t. t.id == id) db.tips in
      let (tip, found, h1) = require_some-inv find _ _ db h in
      let (listed, same_id) = service.orm.tips.find_one_some _ db.tips tip found in
      let (same, after) =
        update_tip-inv service.orm (confirmed service transaction_hash tip) saved db db' h1 in
      (
        tip,
        listed,
        (eq_iff tip.id id).0 same_id,
        same,
        rw same after,
        let here =
              Has-replace_self (confirmed service transaction_hash tip) tip db.tips listed refl in
            let there : Has saved (replace (confirmed service transaction_hash tip) db.tips) =
              rw same here in
            rw after there,
      )

  pub unconfirmed_tip :
      (id transaction_hash : String) (db db' : Database) (e : Exception)
      → confirm_tip service id transaction_hash db ≡ (throws e, db')
      → db' ≡ db
  unfolding confirm_tip
  unconfirmed_tip id transaction_hash db db' e h =
      let find = service.orm.tips.find_one (λ t. t.id == id) db.tips in
      elim (require_some-throws-cases find _ _ db h) [
        | inl same ↦ same
        | inr (tip, found, h1) ↦ update_tip-throws service.orm _ db db' h1
      ]
