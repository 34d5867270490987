-- ===== src/Throttler/Resp/Reply/Parse.antt =====
-- How src/config/redis-throttler.storage.ts reads what a Redis server replies.
use stellar_tip_api.Common.{
  ℕ, zero, suc, ◌+◌, ◌≤◌, ◌<◌, String, ◌≡◌, ◌≢◌, refl, ap, ◌∙◌, some, List, [], ◌∷◌, ◌++◌, arith,
  codes,
}
use stellar_tip_api.Common.Num.{num}
use stellar_tip_api.Common.Lists.{length, length-append, take-append, drop-append_more}
use stellar_tip_api.Common.Value.{Value, string}
use stellar_tip_api.Throttler.Wire.{Wire}
use stellar_tip_api.Throttler.Resp.{
  parsed, split_line, parse_many, parse_bulk, parse_array, parse_prefix, parse_from, parse,
}
use stellar_tip_api.Throttler.Resp.Reply.{
  Reply, Replies, status, integer, negative, absent_items, to_number-minus, minus-NoReturn, bulk,
  absent, items, none, more, count, value_of, values_of, depth, depth_all, NoReturn, write_line,
  digits, digits-NoReturn, to_number-digits, minus_one, write_reply, write_replies, IsPlain,
  ArePlain,
}

split_line-append :
    (line rest : List ℕ) → NoReturn line → split_line (line ++ (13 ∷ 10 ∷ rest)) ≡ some (line, rest)
unfolding split_line
split_line-append [] rest h = refl
split_line-append (c ∷ []) rest h = ground (arith, split_line-append [] rest tt)
split_line-append (c ∷ d ∷ line) rest h = ground (arith, split_line-append (d ∷ line) rest h.1)

module _ (wire : Wire) where
  pub parse_from-write_line :
      (fuel prefix : ℕ) (line rest : List ℕ)
      → prefix ≢ 13
      → NoReturn line
      → parse_from wire (suc fuel) (write_line prefix line rest)
        ≡ parse_prefix wire (parse_from wire fuel) prefix (wire.decode line) rest
  unfolding parse_from
  parse_from-write_line fuel prefix line rest p h =
      rw (split_line-append (prefix ∷ line) rest (p, h)) refl

  parse_bulk-encode :
      (s : String) (rest : List ℕ)
      → parse_bulk wire (num (length (wire.encode s))) (wire.encode s ++ (13 ∷ 10 ∷ rest))
        ≡ parsed (string s) rest
  unfolding parse_bulk
  parse_bulk-encode s rest =
      let bytes = wire.encode s in
      ground (
        arith,
        length-append bytes (13 ∷ 10 ∷ rest),
        take-append bytes (13 ∷ 10 ∷ rest),
        drop-append_more bytes (13 ∷ 10 ∷ rest) 2 (length bytes + 2) refl,
        wire.decode-encode s,
      )

  -- Whatever a server replies is read whole, and what follows it is left.
  mutual
    unfolding write_reply value_of IsPlain depth parse_prefix parse_array parse_many

    pub parse_from-write_reply :
        (r : Reply) (rest : List ℕ) (fuel : ℕ)
        → IsPlain wire r
        → depth r < fuel
        → parse_from wire fuel (write_reply wire r rest) ≡ parsed (value_of r) rest
    parse_from-write_reply (status s) rest zero p d = absurd (omega arith)
    parse_from-write_reply (status s) rest (suc fuel) p d =
        parse_from-write_line fuel b'+' (wire.encode s) rest (omega arith) p
        ∙ ap (λ t. parsed (string t) rest) (wire.decode-encode s)
    parse_from-write_reply (integer n) rest zero p d = absurd (omega arith)
    parse_from-write_reply (integer n) rest (suc fuel) p d =
        parse_from-write_line fuel b':' (digits wire n) rest (omega arith) (digits-NoReturn wire n)
        ∙ ap (λ t. parsed (Value.number t) rest) (to_number-digits wire n)
    parse_from-write_reply (negative n) rest zero p d = absurd (omega arith)
    parse_from-write_reply (negative n) rest (suc fuel) p d =
        parse_from-write_line fuel b':' (b'-' ∷ digits wire (suc n)) rest (omega arith)
          (minus-NoReturn wire n)
        ∙ ap (λ t. parsed (Value.number t) rest) (to_number-minus wire n)
    parse_from-write_reply absent_items rest zero p d = absurd (omega arith)
    parse_from-write_reply absent_items rest (suc fuel) p d =
        parse_from-write_line fuel b'*' (codes "-1") rest (omega arith) (omega arith)
        ∙ ap (λ t. parse_array wire (parse_from wire fuel) t rest) (minus_one wire)
    parse_from-write_reply (bulk s) rest zero p d = absurd (omega arith)
    parse_from-write_reply (bulk s) rest (suc fuel) p d =
        let n = length (wire.encode s) in
        parse_from-write_line fuel b'$' (digits wire n) _ (omega arith) (digits-NoReturn wire n)
        ∙ ap (λ t. parse_bulk wire t (wire.encode s ++ (13 ∷ 10 ∷ rest))) (to_number-digits wire n)
        ∙ parse_bulk-encode s rest
    parse_from-write_reply absent rest zero p d = absurd (omega arith)
    parse_from-write_reply absent rest (suc fuel) p d =
        parse_from-write_line fuel b'$' (codes "-1") rest (omega arith) (omega arith)
        ∙ ap (λ t. parse_bulk wire t rest) (minus_one wire)
    parse_from-write_reply (items rs) rest zero p d = absurd (omega arith)
    parse_from-write_reply (items rs) rest (suc fuel) p d =
        parse_from-write_line fuel b'*' (digits wire (count rs)) _ (omega arith)
          (digits-NoReturn wire (count rs))
        ∙ ap (λ t. parse_array wire (parse_from wire fuel) t (write_replies wire rs rest))
            (to_number-digits wire (count rs))
        ∙ rw (parse_many-write_replies rs rest fuel p (omega arith)) refl

    pub parse_many-write_replies :
        (rs : Replies) (rest : List ℕ) (fuel : ℕ)
        → ArePlain wire rs
        → depth_all rs < fuel
        → parse_many (parse_from wire fuel) (count rs) (write_replies wire rs rest)
          ≡ parsed (values_of rs) rest
    parse_many-write_replies none rest fuel p d = refl
    parse_many-write_replies (more r rs) rest fuel p d =
        rw (parse_from-write_reply r (write_replies wire rs rest) fuel p.0 (omega arith))
          (rw (parse_many-write_replies rs rest fuel p.1 (omega arith)) refl)

  mutual
    unfolding write_reply depth

    pub depth-le-write_reply :
        (r : Reply) (rest : List ℕ) → depth r + length rest ≤ length (write_reply wire r rest)
    depth-le-write_reply (status s) rest =
        omega (arith, length-append (wire.encode s) (13 ∷ 10 ∷ rest))
    depth-le-write_reply (integer n) rest =
        omega (arith, length-append (digits wire n) (13 ∷ 10 ∷ rest))
    depth-le-write_reply (negative n) rest =
        omega (arith, length-append (b'-' ∷ digits wire (suc n)) (13 ∷ 10 ∷ rest))
    depth-le-write_reply absent_items rest = omega arith
    depth-le-write_reply (bulk s) rest =
        let body = wire.encode s ++ (13 ∷ 10 ∷ rest) in
        omega (
          arith,
          length-append (wire.encode s) (13 ∷ 10 ∷ rest),
          length-append (digits wire (length (wire.encode s))) (13 ∷ 10 ∷ body),
        )
    depth-le-write_reply absent rest = omega arith
    depth-le-write_reply (items rs) rest = omega (
      arith,
      length-append (digits wire (count rs)) (13 ∷ 10 ∷ write_replies wire rs rest),
      depth_all-le-write_replies rs rest,
    )

    depth_all-le-write_replies :
        (rs : Replies) (rest : List ℕ)
        → depth_all rs + length rest ≤ length (write_replies wire rs rest)
    depth_all-le-write_replies none rest = omega arith
    depth_all-le-write_replies (more r rs) rest = omega (
      arith,
      depth-le-write_reply r (write_replies wire rs rest),
      depth_all-le-write_replies rs rest,
    )

  pub depth-lt-fuel : (r : Reply) (rest : List ℕ) → depth r < suc (length (write_reply wire r rest))
  depth-lt-fuel r rest = omega (arith, depth-le-write_reply r rest)

  -- Every reply but an error, its status lines without a carriage return, is read back as the value
  -- that it stands for, a null array as an empty one, and the bytes behind it are left for the next
  -- call.
  pub parse-write_reply :
      (r : Reply) (rest : List ℕ)
      → IsPlain wire r
      → parse wire (write_reply wire r rest) ≡ parsed (value_of r) rest
  unfolding parse
  parse-write_reply r rest p =
      parse_from-write_reply r rest (suc (length (write_reply wire r rest))) p
        (depth-lt-fuel r rest)
