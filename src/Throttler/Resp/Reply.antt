-- ===== src/Throttler/Resp/Reply.antt =====
-- The replies of a Redis server, as its protocol (RESP 2) writes them for
-- src/config/redis-throttler.storage.ts: all but an error. `value_of` is what the program makes of
-- one; of a null array it makes an empty one.
pub mod Parse
use Prim.Native.String
use stellar_tip_api.Common.{
  ℕ, zero, suc, ◌+◌, ◌≤◌, ◌<◌, String, ◌≡◌, ◌≢◌, refl, sym, ap, ◌∙◌, some, List, [], ◌∷◌, ◌++◌,
  arith, codes,
}
use stellar_tip_api.Common.Num.{num, fin, negsuc}
use stellar_tip_api.Common.Lists.{
  length, All, length-append, take-append, drop-append_more, All-map,
}
use stellar_tip_api.Common.Value.{Value, Values, string, array, nil, cons}
use stellar_tip_api.Throttler.Wire.{Wire, IsDigit}
use stellar_tip_api.Throttler.Resp.{
  parsed, split_line, parse_many, parse_bulk, parse_array, parse_prefix, parse_from, parse,
}

mutual
  pub data Reply : Type 0 where
    status : String → Reply
    integer : ℕ → Reply
    -- -(n + 1)
    negative : ℕ → Reply
    bulk : String → Reply
    absent : Reply
    items : Replies → Reply
    absent_items : Reply

  pub data Replies : Type 0 where
    none : Replies
    more : Reply → Replies → Replies

abbrev pub count : Replies → ℕ
count none = 0
count (more r rs) = suc (count rs)

unfoldable mutual
  pub value_of : Reply → Value
  value_of (status s) = string s
  value_of (integer n) = Value.number (num n)
  value_of (negative n) = Value.number (fin (negsuc n))
  value_of (bulk s) = string s
  value_of absent = Value.null
  value_of (items rs) = array (values_of rs)
  value_of absent_items = array nil

  pub values_of : Replies → Values
  values_of none = nil
  values_of (more r rs) = cons (value_of r) (values_of rs)

-- Arrays in arrays.
unfoldable mutual
  pub depth : Reply → ℕ
  depth (items rs) = suc (depth_all rs)
  depth _ = 0

  pub depth_all : Replies → ℕ
  depth_all none = 0
  depth_all (more r rs) = depth r + depth_all rs

-- A byte that ends no line.
abbrev pub NoReturn : List ℕ → Type 0
NoReturn bytes = All (λ c. c ≢ 13) bytes

-- A line of the protocol, and what follows it.
abbrev pub write_line : ℕ → List ℕ → List ℕ → List ℕ
write_line prefix line rest = prefix ∷ (line ++ (13 ∷ 10 ∷ rest))

module _ (wire : Wire) where
  abbrev pub digits : ℕ → List ℕ
  digits n = codes (wire.string_of_num (num n))

  pub digits-NoReturn : (n : ℕ) → NoReturn (digits n)
  digits-NoReturn n =
      All-map IsDigit (λ c. c ≢ 13) _ (λ c d. omega arith) (wire.string_of_num-IsDigit n)

  pub encode-string_of_num : (n : ℕ) → wire.encode (wire.string_of_num (num n)) ≡ digits n
  encode-string_of_num n =
      wire.encode-ascii _
        (All-map IsDigit (λ c. c < 128) _ (λ c d. omega arith) (wire.string_of_num-IsDigit n))

  pub to_number-digits : (n : ℕ) → wire.to_number (wire.decode (digits n)) ≡ num n
  to_number-digits n =
      ap (λ l. wire.to_number (wire.decode l)) (sym (encode-string_of_num n))
      ∙ ap wire.to_number (wire.decode-encode _)
      ∙ wire.to_number-string_of_num n

  pub minus_one : wire.to_number (wire.decode (codes "-1")) ≡ fin (negsuc zero)
  minus_one =
      ap (λ l. wire.to_number (wire.decode l)) (sym (wire.encode-ascii "-1" (omega arith)))
      ∙ ap wire.to_number (wire.decode-encode "-1")
      ∙ wire.to_number-minus_one

  pub to_number-minus :
      (n : ℕ) → wire.to_number (wire.decode (b'-' ∷ digits (suc n))) ≡ fin (negsuc n)
  to_number-minus n =
      let printed = wire.string_of_num (num (suc n)) in
      let sent : wire.encode (String.◌++◌ "-" printed) ≡ b'-' ∷ digits (suc n) =
        wire.encode-append "-" printed
        ∙ ap (λ l. l ++ wire.encode printed) (wire.encode-ascii "-" (omega arith))
        ∙ ap (λ l. b'-' ∷ l) (encode-string_of_num (suc n)) in
      ap (λ l. wire.to_number (wire.decode l)) (sym sent)
      ∙ ap wire.to_number (wire.decode-encode _)
      ∙ wire.to_number-negative n

  pub minus-NoReturn : (n : ℕ) → NoReturn (b'-' ∷ digits (suc n))
  minus-NoReturn n = (omega arith, digits-NoReturn (suc n))

  -- The bytes of a reply, and what follows it.
  unfoldable mutual
    pub write_reply : Reply → List ℕ → List ℕ
    write_reply (status s) rest = write_line b'+' (wire.encode s) rest
    write_reply (integer n) rest = write_line b':' (digits n) rest
    write_reply (negative n) rest = write_line b':' (b'-' ∷ digits (suc n)) rest
    write_reply (bulk s) rest =
        write_line b'$' (digits (length (wire.encode s))) (wire.encode s ++ (13 ∷ 10 ∷ rest))
    write_reply absent rest = write_line b'$' (codes "-1") rest
    write_reply (items rs) rest = write_line b'*' (digits (count rs)) (write_replies rs rest)
    write_reply absent_items rest = write_line b'*' (codes "-1") rest

    pub write_replies : Replies → List ℕ → List ℕ
    write_replies none rest = rest
    write_replies (more r rs) rest = write_reply r (write_replies rs rest)

  -- A status is one line.
  unfoldable mutual
    pub IsPlain : Reply → Type 0
    IsPlain (status s) = NoReturn (wire.encode s)
    IsPlain (items rs) = ArePlain rs
    IsPlain _ = Unit

    pub ArePlain : Replies → Type 0
    ArePlain none = Unit
    ArePlain (more r rs) = IsPlain r × ArePlain rs
