-- ===== src/Tips/Listing/Sent.antt =====
-- The listing of a user's own tips, in src/tips/tips.controller.ts, and what writes tips: the other
-- endpoints there and the webhook of src/stellar/stellar.service.ts.
use stellar_tip_api.Common.{
  ℕ, String, ◌≡◌, ◌≢◌, refl, ap, ◌∙◌, inl, inr, Option, none, List, [], ◌∷◌, arith,
}
use stellar_tip_api.Common.Num.{pos_inf}
use stellar_tip_api.Common.Runtime.{Js}
use stellar_tip_api.Common.Lists.{List-cases}
use stellar_tip_api.Http.{ok, Result-cases}
use stellar_tip_api.Entities.{Tip}
use stellar_tip_api.Database.{Database, Has, replace}
use stellar_tip_api.Database.Laws.{Has-replace}
use stellar_tip_api.Stellar.Events.{Payload}
use stellar_tip_api.Stellar.Webhook.{Service, handle_contract_webhook, tip_of}
use stellar_tip_api.Stellar.Webhook.Withdrawn.{withdrawn}
use stellar_tip_api.Stellar.Webhook.Effects.{Effect, tipped, withdrew, passed_over, registered}
use stellar_tip_api.Stellar.Webhook.Replay.{repeated, processed, accepted_delivery}
use stellar_tip_api.Stellar.Webhook.Failures.{handle_contract_webhook-Left}
use stellar_tip_api.Tips.Create.{
  TipsService, CreateTipDto, new_tip, confirm_tip, create_tip_request,
}
use stellar_tip_api.Tips.Create.Laws.{tip_is_stored, refused_tip}
use stellar_tip_api.Tips.Create.Confirm.{confirmed_tip, unconfirmed_tip}
use stellar_tip_api.Tips.Query.{page_of}
use stellar_tip_api.Tips.Query.Read.{TipReader, Paginated}
use stellar_tip_api.Tips.Listing.{TipQuery, filter_options, get_my_sent_tips}
use stellar_tip_api.Tips.Listing.Owners.{listed_tips_belong, sent}

-- The requests that write tips.
pub data Write : Type 0 where
  post : CreateTipDto → Write
  confirm : String → String → Write
  deliver : ℕ → Payload → Option (List ℕ) → Option String → Write

abbrev pub HasNoSupporters : List Tip → Type 0
HasNoSupporters rows = (tip : Tip) → Has tip rows → tip.columns.supporter_id ≡ none

insert-HasNoSupporters :
    (tip : Tip) (rows : List Tip)
    → tip.columns.supporter_id ≡ none
    → HasNoSupporters rows
    → HasNoSupporters (tip ∷ rows)
insert-HasNoSupporters tip rows new old x (inl e) = ap (λ t. t.columns.supporter_id) e ∙ new
insert-HasNoSupporters tip rows new old x (inr m) = old x m

replace-HasNoSupporters :
    (tip : Tip) (rows : List Tip)
    → tip.columns.supporter_id ≡ none
    → HasNoSupporters rows
    → HasNoSupporters (replace tip rows)
replace-HasNoSupporters tip rows new old x m = elim (Has-replace tip x rows m) [
  | inl e ↦ ap (λ t. t.columns.supporter_id) e ∙ new
  | inr n ↦ old x n
]

module _ (tips : TipsService) (stellar : Service) where
  -- the tables after a request, whatever it was answered with
  unfoldable pub perform : Write → Database → Database
  perform (post dto) db = (create_tip_request tips dto db).1
  perform (confirm id transaction_hash) db = (confirm_tip tips id transaction_hash db).1
  perform (deliver now payload raw_body signature) db =
      (handle_contract_webhook stellar now payload raw_body signature db).1

  unfoldable pub perform_all : List Write → Database → Database
  perform_all [] db = db
  perform_all (write ∷ writes) db = perform_all writes (perform write db)

  post-HasNoSupporters :
      (dto : CreateTipDto) (db : Database)
      → HasNoSupporters db.tips
      → HasNoSupporters (perform (post dto) db).tips
  unfolding perform new_tip
  post-HasNoSupporters dto db old = elim (Result-cases (create_tip_request tips dto db).0) [
    | inr (e, h) ↦
        rw (refused_tip tips dto db _ e (λ i. (h i, (create_tip_request tips dto db).1))) old
    | inl (tip, h) ↦
        let (made, _) =
          tip_is_stored tips dto db _ tip (λ i. (h i, (create_tip_request tips dto db).1)) in
        rw made.after
          (insert-HasNoSupporters tip db.tips (ap (λ c. c.supporter_id) made.columns) old)
  ]

  confirm-HasNoSupporters :
      (id transaction_hash : String) (db : Database)
      → HasNoSupporters db.tips
      → HasNoSupporters (perform (confirm id transaction_hash) db).tips
  unfolding perform
  confirm-HasNoSupporters id hash db old = elim (Result-cases (confirm_tip tips id hash db).0) [
    | inr (e, h) ↦
        rw (unconfirmed_tip tips id hash db _ e (λ i. (h i, (confirm_tip tips id hash db).1))) old
    | inl (saved, h) ↦
        let (tip, listed, _, same, after, _) =
          confirmed_tip tips id hash db _ saved (λ i. (h i, (confirm_tip tips id hash db).1)) in
        rw after (
          replace-HasNoSupporters saved db.tips
            (ap (λ t. t.columns.supporter_id) same ∙ old tip listed) old)
  ]

  Effect-HasNoSupporters :
      (payload : Payload) (db db' : Database)
      → HasNoSupporters db.tips
      → Effect stellar payload db db'
      → HasNoSupporters db'.tips
  unfolding tip_of
  Effect-HasNoSupporters payload db db' old (tipped _ stored) =
      rw stored.after
        (insert-HasNoSupporters stored.tip db.tips (ap (λ c. c.supporter_id) stored.columns) old)
  Effect-HasNoSupporters payload db db' old (withdrew _ w) = rw w.after (
      replace-HasNoSupporters (withdrawn stellar payload w.status w.tip) db.tips
        (old w.tip w.listed) old)
  Effect-HasNoSupporters payload db db' old (passed_over _ _ same) = rw same old
  Effect-HasNoSupporters payload db db' old (registered _ same) = rw same old

  deliver-HasNoSupporters :
      (now : ℕ) (payload : Payload) (raw_body : Option (List ℕ)) (signature : Option String)
      (db : Database)
      → HasNoSupporters db.tips
      → HasNoSupporters (perform (deliver now payload raw_body signature) db).tips
  unfolding perform tip_of
  deliver-HasNoSupporters now payload raw_body signature db old =
      let run = handle_contract_webhook stellar now payload raw_body signature db in
      elim (Result-cases run.0) [
        | inr (e, h) ↦
            elim (handle_contract_webhook-Left stellar now payload raw_body signature db _ e
              (λ i. (h i, run.1))) [
                | inl same ↦ rw same old
                | inr (_, _, half) ↦ rw half.after (
                    insert-HasNoSupporters half.tip db.tips (ap (λ c. c.supporter_id) half.columns)
                      old)
              ]
        | inl (ack, h) ↦
            let (_, _, _, outcome) =
              accepted_delivery stellar now payload raw_body signature db _ ack
                (λ i. (h i, run.1)) in
            elim outcome [
              | repeated _ _ same ↦ rw same old
              | processed _ _ effect ↦ Effect-HasNoSupporters payload db run.1 old effect
            ]
      ]

  perform-HasNoSupporters :
      (write : Write) (db : Database)
      → HasNoSupporters db.tips
      → HasNoSupporters (perform write db).tips
  perform-HasNoSupporters (post dto) db old = post-HasNoSupporters dto db old
  perform-HasNoSupporters (confirm id hash) db old = confirm-HasNoSupporters id hash db old
  perform-HasNoSupporters (deliver now payload raw_body signature) db old =
      deliver-HasNoSupporters now payload raw_body signature db old

  all-HasNoSupporters :
      (writes : List Write) (db : Database)
      → HasNoSupporters db.tips
      → HasNoSupporters (perform_all writes db).tips
  unfolding perform_all
  all-HasNoSupporters [] db old = old
  all-HasNoSupporters (write ∷ writes) db old =
      all-HasNoSupporters writes (perform write db) (perform-HasNoSupporters write db old)

  -- Where no tip has a supporter, none has one after any requests that write tips: a finite page of
  -- any user's sent tips is then empty, whatever was sent.
  pub sent_tips_stay_empty :
      (js : Js) (reader : TipReader) (writes : List Write) (user_id : String) (query : TipQuery)
      (db db' : Database) (page : Paginated)
      → HasNoSupporters db.tips
      → page_of (filter_options query) ≢ pos_inf
      → get_my_sent_tips js reader user_id query (perform_all writes db) ≡ (ok page, db')
      → page.items ≡ []
  sent_tips_stay_empty js reader writes user_id query db db' page old finite h =
      elim (List-cases page.items) [
        | inl none_listed ↦ none_listed
        | inr (tip, rest, items) ↦
            let (stored, theirs) =
              listed_tips_belong js reader (sent user_id) query (perform_all writes db) db' page tip
                finite h (rw items (inl refl)) in
            let none_of_any = all-HasNoSupporters writes db old tip stored in
            absurd (ground (arith, theirs, none_of_any))
      ]
