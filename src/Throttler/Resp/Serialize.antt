-- ===== src/Throttler/Resp/Serialize.antt =====
-- What `serialize` of src/config/redis-throttler.storage.ts writes is the protocol's form of the
-- command, as `parse` reads it.
use mathlib.Core.List.{append_assoc}
use stellar_tip_api.Common.{suc, ◌≡◌, refl, ap, ◌∙◌, List, [], ◌∷◌, arith}
use stellar_tip_api.Common.Lists.{length}
use stellar_tip_api.Common.Value.{Values, string, array, nil, cons}
use stellar_tip_api.Throttler.Wire.{Wire}
use stellar_tip_api.Throttler.Resp.{
  parsed, parse, Arg, crlf, string_of_arg, serialize_args, serialize,
}
use stellar_tip_api.Throttler.Resp.Reply.{
  Replies, bulk, items, none, more, count, value_of, values_of, write_reply, write_replies, IsPlain,
  ArePlain, encode-string_of_num,
}
use stellar_tip_api.Throttler.Resp.Reply.Parse.{parse-write_reply}

module _ (wire : Wire) where
  -- A command's arguments, as the protocol has them.
  bulks : List Arg → Replies
  bulks [] = none
  bulks (arg ∷ args) = more (bulk (string_of_arg wire arg)) (bulks args)

  count-bulks : (args : List Arg) → count (bulks args) ≡ length args
  unfolding bulks
  count-bulks [] = refl
  count-bulks (arg ∷ args) = ap suc (count-bulks args)

  ArePlain-bulks : (args : List Arg) → ArePlain wire (bulks args)
  unfolding bulks IsPlain
  ArePlain-bulks [] = tt
  ArePlain-bulks (arg ∷ args) = (tt, ArePlain-bulks args)

  encode-crlf : wire.encode crlf ≡ 13 ∷ 10 ∷ []
  encode-crlf = wire.encode-ascii crlf (omega arith)

  encode-serialize_args :
      (args : List Arg)
      → wire.encode (serialize_args wire args) ≡ write_replies wire (bulks args) []
  unfolding serialize_args bulks write_reply
  encode-serialize_args [] = wire.encode-ascii "" tt
  encode-serialize_args (arg ∷ args) = simp (
    wire.encode-append,
    wire.encode-ascii "$" (omega arith),
    encode-string_of_num wire,
    encode-crlf,
    encode-serialize_args args,
    append_assoc,
  )

  encode-serialize :
      (args : List Arg)
      → wire.encode (serialize wire args) ≡ write_reply wire (items (bulks args)) []
  unfolding serialize write_reply
  encode-serialize args = simp (
    wire.encode-append,
    wire.encode-ascii "*" (omega arith),
    encode-string_of_num wire,
    encode-crlf,
    encode-serialize_args args,
    count-bulks,
  )

  abbrev pub strings : List Arg → Values
  strings [] = nil
  strings (arg ∷ args) = cons (string (string_of_arg wire arg)) (strings args)

  values_of-bulks : (args : List Arg) → values_of (bulks args) ≡ strings args
  unfolding bulks value_of
  values_of-bulks [] = refl
  values_of-bulks (arg ∷ args) = ap (cons (string (string_of_arg wire arg))) (values_of-bulks args)

  -- The bytes of a command are read back as the array of its arguments' texts, whatever characters
  -- these hold.
  pub parse-serialize :
      (args : List Arg)
      → parse wire (wire.encode (serialize wire args)) ≡ parsed (array (strings args)) []
  unfolding value_of IsPlain
  parse-serialize args =
      ap (parse wire) (encode-serialize args)
      ∙ parse-write_reply wire (items (bulks args)) [] (ArePlain-bulks args)
      ∙ ap (λ vs. parsed (array vs) []) (values_of-bulks args)
