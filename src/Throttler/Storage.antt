-- ===== src/Throttler/Storage.antt =====
-- RedisThrottlerStorage in src/config/redis-throttler.storage.ts: `increment`, and
-- `millisecondsToSeconds`. The awaited command is a parameter, a function of the arguments.
pub mod Laws
use Prim.Native.String
use stellar_tip_api.Common.{
  ℕ, suc, ◌+◌, ◌/◌, Bool, true, false, String, Option, none, some, List, [], ◌∷◌, not, is_empty,
}
use stellar_tip_api.Common.Num.{
  ℤ, Num, nan, pos_inf, neg_inf, fin, pos, negsuc, num, num_truthy, eqb_ℤ,
}
use stellar_tip_api.Common.Value.{
  Value, undefined, null, bool, bigint, array, object, at, property, or_nullish,
}
use stellar_tip_api.Throttler.Resp.{Arg, text}
use stellar_tip_api.Throttler.Connection.{Settlement, resolved, rejected}

pub record ThrottlerStorageRecord : Type 0 where
  pub total_hits : Value
  pub time_to_expire : Num
  pub is_blocked : Bool
  pub time_to_block_expire : Num

-- `Math.max(0, Math.ceil(milliseconds / 1000))`
unfoldable pub milliseconds_to_seconds : Num → Num
milliseconds_to_seconds nan = nan
milliseconds_to_seconds pos_inf = pos_inf
milliseconds_to_seconds neg_inf = num 0
milliseconds_to_seconds (fin (negsuc n)) = num 0
milliseconds_to_seconds (fin (pos n)) = num ((n + 999) / 1000)

-- `Boolean(v)`
unfoldable pub value_truthy : Value → Bool
value_truthy undefined = false
value_truthy null = false
value_truthy (bool b) = b
value_truthy (Value.number n) = num_truthy n
value_truthy (bigint n) = not (eqb_ℤ n (pos 0))
value_truthy (Value.string s) = not (is_empty s)
value_truthy (array vs) = true
value_truthy (object fs) = true

-- what `increment` sends
unfoldable pub eval_args : String → String → Num → Num → Num → List Arg
eval_args script key ttl limit block_duration =
    text "EVAL"
    ∷ text script
    ∷ Arg.number (num 2)
    ∷ text (String.◌++◌ key ":hits")
    ∷ text (String.◌++◌ key ":blocked")
    ∷ Arg.number ttl
    ∷ Arg.number limit
    ∷ Arg.number block_duration
    ∷ []

module _ (script : String) (number_of : Value → Num) (character : String → ℕ → Value) where
  -- what `increment` returns where the command is rejected
  unfoldable pub allowed : Num → ThrottlerStorageRecord
  unfolding milliseconds_to_seconds
  allowed ttl = record {
    total_hits = Value.number (num 0);
    time_to_expire = milliseconds_to_seconds ttl;
    is_blocked = false;
    time_to_block_expire = num 0;
  }

  unfoldable pub record_of : Num → (ℕ → Value) → ThrottlerStorageRecord
  unfolding milliseconds_to_seconds value_truthy
  record_of ttl result = record {
    total_hits = or_nullish (result 0) (Value.number (num 0));
    time_to_expire = milliseconds_to_seconds (number_of (or_nullish (result 1) (Value.number ttl)));
    is_blocked = value_truthy (result 2);
    time_to_block_expire =
        milliseconds_to_seconds (number_of (or_nullish (result 3) (Value.number (num 0))));
  }

  -- the elements of an array, `undefined` of what has none; `none` where `result[0]` throws
  unfoldable pub elements : Value → Option (ℕ → Value)
  elements undefined = none
  elements null = none
  elements (array vs) = some (at vs)
  elements (Value.string s) = some (character s)
  elements v = some (λ i. undefined)

  abbrev record_or_allowed : Num → Option (ℕ → Value) → ThrottlerStorageRecord
  record_or_allowed ttl none = allowed ttl
  record_or_allowed ttl (some result) = record_of ttl result

  unfoldable pub answer : Num → Settlement → ThrottlerStorageRecord
  unfolding elements record_of allowed
  answer ttl (resolved v) = record_or_allowed ttl (elements v)
  answer ttl (rejected e) = allowed ttl

  unfoldable pub increment :
      (List Arg → Settlement) → String → Num → Num → Num → ThrottlerStorageRecord
  unfolding answer
  increment command key ttl limit block_duration =
      answer ttl (command (eval_args script key ttl limit block_duration))
