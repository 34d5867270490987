-- ===== src/Tips/Create/Laws.antt =====
-- What `createTip` and `confirmTip` of src/tips/tips.service.ts leave in the tables.
use stellar_tip_api.Common.{
  Bool, true, false, not, ◌&&◌, ◌||◌, String, ◌==◌, ◌≡◌, ◌≢◌, refl, sym, ap, ◌∙◌, inl, inr, Option,
  none, some, ◌∷◌, arith, eq_iff, Bool-cases, is_empty, truthy, non_empty, or_else, or_text,
  column_is-some,
}
use stellar_tip_api.Common.Num.{num, le_num}
use stellar_tip_api.Http.{
  Exception, ok, throws, require-inv-state, require-throws-cases, require_some-inv,
  require_some-throws-cases, throws-ne-ok,
}
use stellar_tip_api.Entities.{Tip, User, TipAsset, xlm, usdc, TipStatus}
use stellar_tip_api.Database.{Database, Has}
use stellar_tip_api.Database.Laws.{insert_tip-inv, insert_tip-throws}
use stellar_tip_api.Tips.Create.{
  TipsService, usdc_issuer, CreateTipDto, asset_named, wallet_is, new_tip, create_tip,
  create_tip_request,
}

not-inv : (b : Bool) → not b ≡ true → b ≡ false
not-inv true h = ground arith
not-inv false h = refl

non_empty-set :
    (o : Option String)
    → truthy o ≡ true
    → (s : String) × (non_empty o ≡ some s) × (is_empty s ≡ false)
non_empty-set none h = ground arith
non_empty-set (some s) h = let set : is_empty s ≡ false = not-inv _ h in (s, rw set refl, set)

non_empty-unset : (o : Option String) → truthy o ≡ false → non_empty o ≡ none
non_empty-unset none h = refl
non_empty-unset (some s) h = ground arith

or_text-set : (o : Option String) → truthy o ≡ true → is_empty (or_text o "") ≡ false
or_text-set none h = ground arith
or_text-set (some s) h = let set : is_empty s ≡ false = not-inv _ h in rw set set

or_else-set :
    (o t : Option String)
    → truthy t ≡ true
    → (s : String) × (or_else o t ≡ some s) × (is_empty s ≡ false)
or_else-set none (some t) h = (t, refl, ground arith)
or_else-set (some s) (some t) h = elim (Bool-cases (is_empty s)) [
  | inl e ↦ (t, rw e refl, ground arith)
  | inr e ↦ (s, rw e refl, e)
]
or_else-set o none h = ground arith

asset_named-xlm : (name : String) → asset_named name ≡ some xlm → name ≡ "XLM"
unfolding asset_named
asset_named-xlm name h = ground (arith, eq_iff name "XLM", Bool-cases (name == "XLM"))

asset_named-usdc : (name : String) → asset_named name ≡ some usdc → name ≡ "USDC"
unfolding asset_named
asset_named-usdc name h = ground (arith, eq_iff name "USDC", Bool-cases (name == "XLM"))

module _ (service : TipsService) where
  -- The issuer that a tip in USDC is stored with; one in XLM has none.
  pub data HasIssuer (tip : Tip) : Type 0 where
    native : tip.columns.asset ≡ xlm → tip.columns.asset_issuer ≡ none → HasIssuer tip
    issued :
        (issuer : String)
        → tip.columns.asset ≡ usdc
        → tip.columns.asset_issuer ≡ some issuer
        → is_empty issuer ≡ false
        → HasIssuer tip

  pub record IsCreated (dto : CreateTipDto) (supporter_id : Option String) (db db' : Database)
      (tip : Tip) : Type 0 where
    pub creator : User
    pub registered : Has creator db.users
    pub receives : creator.columns.wallet_address ≡ some dto.receiver_wallet
    pub above_zero : le_num dto.amount (num 0) ≡ false
    pub asset : TipAsset
    pub named : asset_named (or_text dto.asset "XLM") ≡ some asset
    pub columns : tip.columns ≡ new_tip service dto supporter_id creator asset
    pub issuer : HasIssuer tip
    pub fresh : (x : Tip) → Has x db.tips → x.id ≢ tip.id
    pub after : db' ≡ record db { tips = tip ∷ db.tips }

  new_tip-HasIssuer :
      (dto : CreateTipDto) (supporter_id : Option String) (creator : User) (asset : TipAsset)
      (tip : Tip)
      → asset_named (or_text dto.asset "XLM") ≡ some asset
      → (not (or_text dto.asset "XLM" == "USDC") || truthy (usdc_issuer service)) ≡ true
      → tip.columns ≡ new_tip service dto supporter_id creator asset
      → HasIssuer tip
  unfolding new_tip
  new_tip-HasIssuer dto supporter_id creator xlm tip named configured columns =
      native (ap (λ c. c.asset) columns) (ap (λ c. c.asset_issuer) columns)
  new_tip-HasIssuer dto supporter_id creator usdc tip named configured columns =
      let (s, e, set) =
        or_else-set dto.asset_issuer (usdc_issuer service)
          (ground (arith, asset_named-usdc _ named, eq_iff (or_text dto.asset "XLM") "USDC")) in
      issued s (ap (λ c. c.asset) columns) (ap (λ c. c.asset_issuer) columns ∙ e) set

  pub create_tip-IsCreated :
      (dto : CreateTipDto) (supporter_id : Option String) (db db' : Database) (tip : Tip)
      → create_tip service dto supporter_id db ≡ (ok tip, db')
      → IsCreated dto supporter_id db db' tip
  unfolding create_tip
  create_tip-IsCreated dto supporter_id db db' tip h =
      let find = service.orm.users.find_one (wallet_is service dto.receiver_wallet) db.users in
      let (creator, found, h1) = require_some-inv find _ _ db h in
      let (registered, wallet) = service.orm.users.find_one_some _ db.users creator found in
      let (above, h2) = require-inv-state (not (le_num dto.amount (num 0))) _ _ db h1 in
      let (configured, h3) =
        require-inv-state (not (or_text dto.asset "XLM" == "USDC") || truthy (usdc_issuer service))
          _ _ db h2 in
      let (asset, named, h4) = require_some-inv (asset_named (or_text dto.asset "XLM")) _ _ db h3 in
      let (columns, after, fresh) = insert_tip-inv service.orm _ db db' tip h4 in
      record {
        creator = creator;
        registered = registered;
        receives = column_is-some creator.columns.wallet_address dto.receiver_wallet wallet;
        above_zero = not-inv _ above;
        asset = asset;
        named = named;
        columns = columns;
        issuer = new_tip-HasIssuer dto supporter_id creator asset tip named configured columns;
        fresh = fresh;
        after = after;
      }

  request-inv :
      (dto : CreateTipDto) (db db' : Database) (tip : Tip)
      → create_tip_request service dto db ≡ (ok tip, db')
      → ((truthy dto.sender_wallet || truthy dto.transaction_hash) ≡ true)
        × (create_tip service dto none db ≡ (ok tip, db'))
  unfolding create_tip_request
  request-inv dto db db' tip h =
      elim (Bool-cases (not (truthy dto.sender_wallet) && not (truthy dto.transaction_hash))) [
        | inl t ↦ absurd (throws-ne-ok (ap (λ p. p.0) (rw t at h)))
        | inr f ↦ (ground (arith, f), rw f at h)
      ]

  -- What a new tip's status says of it.
  pub data HasStatus (tip : Tip) : Type 0 where
    paid :
        (hash : String)
        → tip.columns.status ≡ TipStatus.completed
        → tip.columns.transaction_hash ≡ some hash
        → is_empty hash ≡ false
        → HasStatus tip
    promised :
        tip.columns.status ≡ TipStatus.pending
        → tip.columns.transaction_hash ≡ none
        → is_empty tip.columns.sender_wallet ≡ false
        → HasStatus tip

  new_tip-HasStatus :
      (dto : CreateTipDto) (creator : User) (asset : TipAsset) (tip : Tip)
      → (truthy dto.sender_wallet || truthy dto.transaction_hash) ≡ true
      → tip.columns ≡ new_tip service dto none creator asset
      → HasStatus tip
  unfolding new_tip
  new_tip-HasStatus dto creator asset tip some_set columns =
      elim (Bool-cases (truthy dto.transaction_hash)) [
        | inl t ↦
            let (hash, e, set) = non_empty-set dto.transaction_hash t in
            paid hash (ap (λ c. c.status) columns ∙ rw t refl)
              (ap (λ c. c.transaction_hash) columns ∙ e) set
        | inr f ↦
            promised (ap (λ c. c.status) columns ∙ rw f refl)
              (ap (λ c. c.transaction_hash) columns ∙ non_empty-unset dto.transaction_hash f)
              (ap (λ c. is_empty c.sender_wallet) columns
                ∙ or_text-set dto.sender_wallet (ground (arith, f, some_set)))
      ]

  -- A tip that the endpoint answers with is stored as one new row, and nothing else changed. Its
  -- creator is the registered user of the receiving wallet, the amount is not zero or less, and
  -- the asset is the one named, XLM for want of a name; a tip in USDC has an issuer. It is
  -- completed with a transaction hash, or pending without one, and then its sender is known.
  pub tip_is_stored :
      (dto : CreateTipDto) (db db' : Database) (tip : Tip)
      → create_tip_request service dto db ≡ (ok tip, db')
      → IsCreated dto none db db' tip × HasStatus tip
  tip_is_stored dto db db' tip h =
      let (some_set, h1) = request-inv dto db db' tip h in
      let made = create_tip-IsCreated dto none db db' tip h1 in
      (made, new_tip-HasStatus dto made.creator made.asset tip some_set made.columns)

  create_tip-throws :
      (dto : CreateTipDto) (supporter_id : Option String) (db db' : Database) (e : Exception)
      → create_tip service dto supporter_id db ≡ (throws e, db')
      → db' ≡ db
  unfolding create_tip
  create_tip-throws dto supporter_id db db' e h =
      let find = service.orm.users.find_one (wallet_is service dto.receiver_wallet) db.users in
      elim (require_some-throws-cases find _ _ db h) [
        | inl same ↦ same
        | inr (creator, found, h1) ↦
            elim (require-throws-cases (not (le_num dto.amount (num 0))) _ _ db h1) [
              | inl same ↦ same
              | inr h2 ↦
                  elim (require-throws-cases
                    (not (or_text dto.asset "XLM" == "USDC") || truthy (usdc_issuer service)) _ _ db
                    h2) [
                      | inl same ↦ same
                      | inr h3 ↦
                          elim (require_some-throws-cases (asset_named (or_text dto.asset "XLM")) _
                            _ db h3) [
                              | inl same ↦ same
                              | inr (asset, named, h4) ↦ insert_tip-throws service.orm _ db db' h4
                            ]
                    ]
            ]
      ]

  -- A request that throws, for whatever reason, changes nothing.
  pub refused_tip :
      (dto : CreateTipDto) (db db' : Database) (e : Exception)
      → create_tip_request service dto db ≡ (throws e, db')
      → db' ≡ db
  unfolding create_tip_request
  refused_tip dto db db' e h =
      elim (Bool-cases (not (truthy dto.sender_wallet) && not (truthy dto.transaction_hash))) [
        | inl t ↦ sym (ap (λ p. p.1) (rw t at h))
        | inr f ↦ create_tip-throws dto none db db' e (rw f at h)
      ]
