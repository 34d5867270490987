-- ===== src/Stellar/Webhook/Withdrawn.antt =====
-- What a withdrawal event leaves in the tables: `persistWithdrawalEvent` of
-- src/stellar/stellar.service.ts.
use stellar_tip_api.Common.{
  String, false, true, not, ◌&&◌, ◌≡◌, refl, ◌⊎◌, inl, inr, Option, none, some, arith, truthy,
  Bool-cases,
}
use stellar_tip_api.Common.Value.{property}
use stellar_tip_api.Http.{ok, bind-inv, lift-inv-state}
use stellar_tip_api.Entities.{Tip, TipWithdrawalStatus}
use stellar_tip_api.Database.{Database, Has, replace, update_tip}
use stellar_tip_api.Database.Laws.{update_tip-inv}
use stellar_tip_api.Stellar.Events.{Payload}
use stellar_tip_api.Stellar.Read.{read_optional_string, normalize_withdrawal_status}
use stellar_tip_api.Stellar.Webhook.{
  Service, data_of, linked_tip, uuid_of, record_withdrawal, persist_withdrawal_event,
}

module _ (service : Service) where
  -- The tip with the withdrawal that the event says.
  abbrev pub withdrawn : Payload → TipWithdrawalStatus → Tip → Tip
  withdrawn payload status tip = record tip {
    columns = record (tip.columns) {
      withdrawal_status = status;
      withdrawal_transaction_hash = some payload.transaction_hash;
    };
  }

  abbrev pub tip_id_of : Payload → Option String
  tip_id_of payload = read_optional_string (property (data_of payload) "tipId")

  abbrev pub tip_hash_of : Payload → Option String
  tip_hash_of payload = read_optional_string (property (data_of payload) "tipTransactionHash")

  -- A withdrawal event that was taken in changes one tip, the one that it names, and of that only
  -- the withdrawal's status and hash.
  pub record IsWithdrawn (payload : Payload) (db db' : Database) : Type 0 where
    pub tip : Tip
    pub listed : Has tip db.tips
    pub linked_id : Option String
    pub named : uuid_of service (tip_id_of payload) ≡ ok linked_id
    pub linked : linked_tip service linked_id (tip_hash_of payload) tip ≡ true
    pub status : TipWithdrawalStatus
    pub read : normalize_withdrawal_status (property (data_of payload) "status") ≡ ok status
    pub after : db' ≡ record db { tips = replace (withdrawn payload status tip) db.tips }

  -- A withdrawal event that names no tip, or one that is not stored.
  pub data IsUnlinked (payload : Payload) (db : Database) : Type 0 where
    unnamed :
        truthy (tip_id_of payload) ≡ false
        → truthy (tip_hash_of payload) ≡ false
        → IsUnlinked payload db
    missing :
        (linked_id : Option String)
        → uuid_of service (tip_id_of payload) ≡ ok linked_id
        → ((tip : Tip)
            → Has tip db.tips
            → linked_tip service linked_id (tip_hash_of payload) tip ≡ false)
        → IsUnlinked payload db

  record_withdrawal-IsWithdrawn :
      (payload : Payload) (linked_id : Option String) (tip : Tip) (db db' : Database)
      → Has tip db.tips
      → uuid_of service (tip_id_of payload) ≡ ok linked_id
      → linked_tip service linked_id (tip_hash_of payload) tip ≡ true
      → record_withdrawal service payload (some tip) db ≡ (ok tt, db')
      → IsWithdrawn payload db db'
  unfolding record_withdrawal
  record_withdrawal-IsWithdrawn payload linked_id tip db db' listed named linked h =
      let (status, read, h1) =
        lift-inv-state (normalize_withdrawal_status (property (data_of payload) "status")) _ db h in
      let (saved, db1, e1, h2) =
        bind-inv (update_tip service.orm (withdrawn payload status tip)) _ db h1 in
      let (same, after) =
        update_tip-inv service.orm (withdrawn payload status tip) saved db db1 e1 in
      record {
        tip = tip;
        listed = listed;
        linked_id = linked_id;
        named = named;
        linked = linked;
        status = status;
        read = read;
        after = ground arith;
      }

  persist_found :
      (payload : Payload) (linked_id : Option String) (db db' : Database) (found : Option Tip)
      → uuid_of service (tip_id_of payload) ≡ ok linked_id
      → service.orm.tips.find_one (linked_tip service linked_id (tip_hash_of payload)) db.tips
        ≡ found
      → record_withdrawal service payload found db ≡ (ok tt, db')
      → (IsUnlinked payload db × (db' ≡ db)) ⊎ IsWithdrawn payload db db'
  unfolding record_withdrawal
  persist_found payload linked_id db db' none named e h = inl (
    missing linked_id named (λ tip m. service.orm.tips.find_one_none _ db.tips tip e m),
    ground arith,
  )
  persist_found payload linked_id db db' (some tip) named e h =
      let (listed, linked) = service.orm.tips.find_one_some _ db.tips tip e in
      inr (record_withdrawal-IsWithdrawn payload linked_id tip db db' listed named linked h)

  pub persist_withdrawal_event-cases :
      (payload : Payload) (db db' : Database)
      → persist_withdrawal_event service payload db ≡ (ok tt, db')
      → (IsUnlinked payload db × (db' ≡ db)) ⊎ IsWithdrawn payload db db'
  unfolding persist_withdrawal_event
  persist_withdrawal_event-cases payload db db' h =
      let id = tip_id_of payload in
      let hash = tip_hash_of payload in
      elim (Bool-cases (not (truthy id) && not (truthy hash))) [
        | inl e ↦ inl (
          unnamed (ground (arith, e, Bool-cases (truthy id)))
              (ground (arith, e, Bool-cases (truthy id), Bool-cases (truthy hash))),
          ground arith,
        )
        | inr e ↦
            let (linked_id, named, h1) = lift-inv-state (uuid_of service id) _ db (rw e at h) in
            persist_found payload linked_id db db' _ named refl h1
      ]
