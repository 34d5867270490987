-- ===== src/Throttler/Tests.antt =====
-- The rate limiter's storage of src/config/redis-throttler.storage.ts at concrete replies.
use stellar_tip_api.Common.{ℕ, String, ◌≡◌, ◌≢◌, List, [], ◌∷◌, arith, codes}
use stellar_tip_api.Common.Num.{Num, num}
use stellar_tip_api.Common.Value.{Value, array}
use stellar_tip_api.Throttler.PlainWire.{plain_wire}
use stellar_tip_api.Throttler.Resp.{out_of_fuel, parsed, parse, parse_from, serialize, text, Arg}
use stellar_tip_api.Throttler.Resp.Reply.{
  Reply, integer, bulk, items, more, none, value_of, write_reply, write_line, IsPlain,
}
use stellar_tip_api.Throttler.Resp.Reply.Parse.{parse-write_reply}
use stellar_tip_api.Throttler.Resp.Serialize.{strings, parse-serialize}
use stellar_tip_api.Throttler.Resp.Fuel.{parse-parse_from}
use stellar_tip_api.Throttler.Connection.Replies.{idle, exchanges}
use stellar_tip_api.Throttler.Storage.Laws.{EachAllowed, AllAllowed, error_reply_disables_limit}

abbrev hello : Reply
hello = items (more (bulk "é\r\n") (more (integer 2) none))

hello-IsPlain : IsPlain plain_wire hello
unfolding IsPlain
hello-IsPlain = (tt, (tt, tt))

parse-write_reply_example :
    parse plain_wire (write_reply plain_wire hello (43 ∷ [])) ≡ parsed (value_of hello) (43 ∷ [])
parse-write_reply_example = parse-write_reply plain_wire hello (43 ∷ []) hello-IsPlain

abbrev get_args : List Arg
get_args = text "GET" ∷ text "ké\r\n" ∷ []

parse-serialize_example :
    parse plain_wire (plain_wire.encode (serialize plain_wire get_args))
    ≡ parsed (array (strings plain_wire get_args)) []
parse-serialize_example = parse-serialize plain_wire get_args

parse-parse_from_example :
    (parse plain_wire (codes "+OK\r\n") ≢ out_of_fuel)
    × (parse_from plain_wire 9 (codes "+OK\r\n") ≡ parse plain_wire (codes "+OK\r\n"))
parse-parse_from_example = parse-parse_from plain_wire (codes "+OK\r\n") 9 (omega arith)

abbrev chunks : List (List ℕ)
chunks = codes "*11\r" ∷ codes "\n$111\r\né\r" ∷ [] ∷ codes "\n\r\n:11\r\n" ∷ []

abbrev number_of : Value → Num
number_of (Value.number n) = n
number_of _ = num 0

abbrev no_character : String → ℕ → Value
no_character s i = Value.undefined

abbrev two_exchanges : List (ℕ × List ℕ)
two_exchanges = (2, codes ":1\r\n") ∷ (3, codes ":1\r\n") ∷ []

error_reply_disables_limit_example :
    let commands = (1, write_line b'-' (codes "LOADING") []) ∷ two_exchanges in
    let settled = (exchanges plain_wire commands (idle plain_wire [] [])).settled in
    EachAllowed "script" number_of no_character (num 60000) commands settled
    × AllAllowed "script" number_of no_character (num 60000) settled
error_reply_disables_limit_example =
    error_reply_disables_limit "script" number_of no_character plain_wire "LOADING" 1 two_exchanges
      (num 60000) (omega arith)
