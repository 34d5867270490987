-- ===== src/Throttler/Resp.antt =====
-- `serialize` and `parse` of RedisCommandConnection in src/config/redis-throttler.storage.ts.
-- `parse(offset)` reads `this.buffer` from `offset`: here it is given what stands from there on,
-- and returns what stands behind the value. A bulk length that is neither a natural number nor -1,
-- and an infinite count, are `unmodelled`. `fuel` bounds the depth of arrays in arrays.
pub mod Reply
pub mod Serialize
pub mod Shrinks
pub mod Fuel
pub mod Chunks
use Prim.Native.String
use stellar_tip_api.Common.{
  ℕ, zero, suc, ◌+◌, ◌&&◌, String, Option, none, some, List, [], ◌∷◌, ltb, eqb, if◌then◌else◌,
}
use stellar_tip_api.Common.Lists.{length, take, drop}
use stellar_tip_api.Common.Num.{Num, nan, pos_inf, neg_inf, fin, pos, negsuc, num}
use stellar_tip_api.Common.Value.{Value, Values, string, array, nil, cons}
use stellar_tip_api.Throttler.Wire.{Wire}

abbrev pub crlf : String
crlf = "\r\n"

-- `string | number`
pub data Arg : Type 0 where
  text : String → Arg
  number : Num → Arg

-- What `parse` throws: the message of the server, or a prefix that it does not know.
pub data Fault : Type 0 where
  server : String → Fault
  unsupported_prefix : ℕ → Fault

-- `incomplete` is null.
pub data Parse (A : Type 0) : Type 0 where
  incomplete : Parse A
  fault : Fault → Parse A
  unmodelled : Parse A
  out_of_fuel : Parse A
  parsed : A → List ℕ → Parse A

abbrev pub and_parse : {A B : Type 0} → Parse A → (A → List ℕ → Parse B) → Parse B
and_parse incomplete f = incomplete
and_parse (fault e) f = fault e
and_parse unmodelled f = unmodelled
and_parse out_of_fuel f = out_of_fuel
and_parse (parsed a rest) f = f a rest

abbrev after_byte : ℕ → Option (List ℕ × List ℕ) → Option (List ℕ × List ℕ)
after_byte a none = none
after_byte a (some (before, after)) = some (a ∷ before, after)

-- `indexOf('\r\n')`: what stands before it, and behind it
unfoldable pub split_line : List ℕ → Option (List ℕ × List ℕ)
split_line [] = none
split_line (a ∷ []) = none
split_line (a ∷ b ∷ bs) =
    let later = after_byte a (split_line (b ∷ bs)) in
    if eqb a 13 && eqb b 10 then some ([], bs) else later

-- the loop over an array's values
unfoldable pub parse_many : (List ℕ → Parse Value) → ℕ → List ℕ → Parse Values
parse_many parse_one zero rest = parsed nil rest
parse_many parse_one (suc n) rest =
    and_parse (parse_one rest)
      λ v rest'. and_parse (parse_many parse_one n rest') λ vs rest''. parsed (cons v vs) rest''

module _ (wire : Wire) where
  unfoldable pub string_of_arg : Arg → String
  string_of_arg (text s) = s
  string_of_arg (number n) = wire.string_of_num n

  -- `$${Buffer.byteLength(value)}\r\n${value}\r\n`
  unfoldable pub serialize_arg : String → String
  serialize_arg value = String.◌++◌ "$" (
      String.◌++◌ (wire.string_of_num (num (length (wire.encode value))))
        (String.◌++◌ crlf (String.◌++◌ value crlf)))

  unfoldable pub serialize_args : List Arg → String
  unfolding serialize_arg string_of_arg
  serialize_args [] = ""
  serialize_args (arg ∷ args) =
      String.◌++◌ (serialize_arg (string_of_arg arg)) (serialize_args args)

  unfoldable pub serialize : List Arg → String
  unfolding serialize_args
  serialize args = String.◌++◌ "*" (
      String.◌++◌ (wire.string_of_num (num (length args))) (String.◌++◌ crlf (serialize_args args)))

  unfoldable pub parse_bulk : Num → List ℕ → Parse Value
  parse_bulk (fin (negsuc zero)) after = parsed Value.null after
  parse_bulk (fin (pos n)) after =
      if ltb (length after) (n + 2)
      then incomplete
      else parsed (string (wire.decode (take n after))) (drop (n + 2) after)
  parse_bulk _ after = unmodelled

  unfoldable pub parse_array : (List ℕ → Parse Value) → Num → List ℕ → Parse Value
  unfolding parse_many
  parse_array parse_one (fin (pos n)) after =
      and_parse (parse_many parse_one n after) λ vs rest. parsed (array vs) rest
  parse_array parse_one pos_inf after = unmodelled
  parse_array parse_one _ after = parsed (array nil) after

  unfoldable pub parse_prefix : (List ℕ → Parse Value) → ℕ → String → List ℕ → Parse Value
  unfolding parse_bulk parse_array
  parse_prefix parse_one prefix line after =
      if eqb prefix b'+'
      then parsed (string line) after
      else if eqb prefix b'-'
      then fault (server line)
      else if eqb prefix b':'
      then parsed (Value.number (wire.to_number line)) after
      else if eqb prefix b'$'
      then parse_bulk (wire.to_number line) after
      else if eqb prefix b'*'
      then parse_array parse_one (wire.to_number line) after
      else fault (unsupported_prefix prefix)

  unfoldable pub parse_line : (List ℕ → Parse Value) → ℕ → Option (List ℕ × List ℕ) → Parse Value
  unfolding parse_prefix
  parse_line parse_one prefix none = incomplete
  parse_line parse_one prefix (some (before, after)) =
      parse_prefix parse_one prefix (wire.decode (drop 1 before)) after

  unfoldable pub parse_from : ℕ → List ℕ → Parse Value
  unfolding parse_line split_line
  parse_from zero bytes = out_of_fuel
  parse_from (suc fuel) [] = incomplete
  parse_from (suc fuel) (prefix ∷ bytes) =
      let line = split_line (prefix ∷ bytes) in parse_line (parse_from fuel) prefix line

  -- `parse`, with as much fuel as there are bytes
  unfoldable pub parse : List ℕ → Parse Value
  unfolding parse_from
  parse bytes = parse_from (suc (length bytes)) bytes
