-- ===== src/Stellar/Events.antt =====
-- src/stellar/contract/events.ts
use stellar_tip_api.Common.{String, Option, none, some, List, [], ◌∷◌, non_empty, ◌≡◌, refl}
use stellar_tip_api.Common.Value.{Fields}

abbrev pub tip_event : String
tip_event = "tip"

abbrev pub withdrawal_event : String
withdrawal_event = "withdrawal"

abbrev pub register_event : String
register_event = "register"

-- `topic: string | string[]`
pub data Topic : Type 0 where
  one : String → Topic
  many : List String → Topic

-- The fields of `StellarContractEventPayload`; an absent string is the empty one, which the code
-- treats alike, and `data || {}` is done on reading.
pub record Payload : Type 0 where
  pub topic : Topic
  pub transaction_hash : String
  pub timestamp : String
  pub event_data : Option Fields

-- `topic[topic.length - 1]`
last_of : String → List String → String
last_of x [] = x
last_of x (y ∷ ys) = last_of y ys

unfoldable pub normalize_contract_event_topic : Topic → Option String
unfolding last_of
normalize_contract_event_topic (many []) = none
normalize_contract_event_topic (many (x ∷ xs)) = some (last_of x xs)
normalize_contract_event_topic (one t) = non_empty (some t)

last_topic : normalize_contract_event_topic (many ("c" ∷ "tip" ∷ [])) ≡ some "tip"
unfolding normalize_contract_event_topic
last_topic = refl
