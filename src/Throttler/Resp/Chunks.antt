-- ===== src/Throttler/Resp/Chunks.antt =====
-- Replies that arrive in parts: `parse` of src/config/redis-throttler.storage.ts waits for the
-- rest of a reply, wherever it was cut.
use mathlib.Core.List.{append_assoc}
use stellar_tip_api.Common.{
  ℕ, zero, suc, ◌+◌, ◌≤◌, ◌<◌, ◌≡◌, ◌≢◌, refl, sym, ap, ◌∙◌, ◌⊎◌, inl, inr, none, List, [], ◌∷◌,
  ◌++◌, arith, codes, Bool-cases, ltb,
}
use stellar_tip_api.Common.Num.{num}
use stellar_tip_api.Common.Lists.{length, length-append}
use stellar_tip_api.Throttler.Wire.{Wire}
use stellar_tip_api.Throttler.Resp.{
  incomplete, split_line, parse_many, parse_bulk, parse_array, parse_prefix, parse_from, parse,
}
use stellar_tip_api.Throttler.Resp.Fuel.{parse_from-enough}
use stellar_tip_api.Throttler.Resp.Reply.{
  Reply, status, integer, negative, absent_items, minus-NoReturn, bulk, absent, items, Replies,
  more, NoReturn, write_line, write_reply, write_replies, digits, digits-NoReturn, to_number-digits,
  count, IsPlain, ArePlain, depth, depth_all,
}
use stellar_tip_api.Throttler.Resp.Reply.Parse.{parse_from-write_line, parse_from-write_reply}

-- `a` ends within `line` and its line end, or behind them.
split_line-cut :
    (line a : List ℕ) (c : ℕ) (cs rest : List ℕ)
    → NoReturn line
    → line ++ (13 ∷ 10 ∷ rest) ≡ a ++ (c ∷ cs)
    → (split_line a ≡ none)
      ⊎ ((a' : List ℕ) × (a ≡ line ++ (13 ∷ 10 ∷ a')) × (rest ≡ a' ++ (c ∷ cs)))
unfolding split_line
split_line-cut line [] c cs rest h e = inl refl
split_line-cut line (x ∷ []) c cs rest h e = inl refl
split_line-cut [] (x ∷ y ∷ a) c cs rest h e = inr (a, ground arith, ground arith)
split_line-cut (d ∷ line) (x ∷ y ∷ a) c cs rest h e =
    elim (split_line-cut line (y ∷ a) c cs rest h.1 (ground arith)) [
      | inl waits ↦ inl (ground (arith, h.0))
      | inr (a', same, left) ↦ inr (a', ground arith, left)
    ]

append-cut :
    (xs a ys zs : List ℕ)
    → xs ++ ys ≡ a ++ zs
    → length xs ≤ length a
    → (a' : List ℕ) × (a ≡ xs ++ a') × (ys ≡ a' ++ zs)
append-cut [] a ys zs e h = (a, refl, e)
append-cut (x ∷ xs) [] ys zs e h = absurd (omega arith)
append-cut (x ∷ xs) (b ∷ a) ys zs e h =
    let (a', same, left) = append-cut xs a ys zs (ground arith) (omega arith) in
    (a', ground arith, left)

module _ (wire : Wire) where
  parse_from-cut_line :
      (fuel prefix : ℕ) (line a : List ℕ) (c : ℕ) (cs rest : List ℕ)
      → prefix ≢ 13
      → NoReturn line
      → write_line prefix line rest ≡ a ++ (c ∷ cs)
      → (parse_from wire (suc fuel) a ≡ incomplete)
        ⊎ ((a' : List ℕ) × (a ≡ write_line prefix line a') × (rest ≡ a' ++ (c ∷ cs)))
  unfolding parse_from
  parse_from-cut_line fuel prefix line [] c cs rest p h e = inl refl
  parse_from-cut_line fuel prefix line (x ∷ a) c cs rest p h e =
      elim (split_line-cut (prefix ∷ line) (x ∷ a) c cs rest (p, h) e) [
        | inl waits ↦ inl (rw waits refl)
        | inr found ↦ inr found
      ]

  -- A bulk's text that is cut is waited for.
  parse_bulk-cut :
      (bytes a : List ℕ) (c : ℕ) (cs rest : List ℕ)
      → bytes ++ (13 ∷ 10 ∷ rest) ≡ a ++ (c ∷ cs)
      → (parse_bulk wire (num (length bytes)) a ≡ incomplete)
        ⊎ ((a' : List ℕ) × (a ≡ bytes ++ (13 ∷ 10 ∷ a')) × (rest ≡ a' ++ (c ∷ cs)))
  unfolding parse_bulk
  parse_bulk-cut bytes a c cs rest e = elim (Bool-cases (ltb (length a) (length bytes + 2))) [
    | inl short ↦ inl (rw short refl)
    | inr long ↦
        let (a', same, left) =
          append-cut (bytes ++ (13 ∷ 10 ∷ [])) a rest (c ∷ cs)
            (append_assoc bytes (13 ∷ 10 ∷ []) rest ∙ e)
            (ground (arith, length-append bytes (13 ∷ 10 ∷ []))) in
        inr (a', same ∙ append_assoc bytes (13 ∷ 10 ∷ []) a', left)
  ]

  -- After a line that was read, what the line asks for is waited for, or ends before the cut.
  mutual
    unfolding write_reply IsPlain depth parse_prefix parse_array parse_many

    parse_from-cut :
        (r : Reply) (a : List ℕ) (c : ℕ) (cs rest : List ℕ) (fuel : ℕ)
        → IsPlain wire r
        → depth r < fuel
        → write_reply wire r rest ≡ a ++ (c ∷ cs)
        → (parse_from wire fuel a ≡ incomplete)
          ⊎ ((a' : List ℕ) × (a ≡ write_reply wire r a') × (rest ≡ a' ++ (c ∷ cs)))
    parse_from-cut r a c cs rest zero p d e = absurd (omega arith)
    parse_from-cut (status s) a c cs rest (suc fuel) p d e =
        parse_from-cut_line fuel b'+' (wire.encode s) a c cs rest (omega arith) p e
    parse_from-cut (integer n) a c cs rest (suc fuel) p d e =
        parse_from-cut_line fuel b':' (digits wire n) a c cs rest (omega arith)
          (digits-NoReturn wire n) e
    parse_from-cut (negative n) a c cs rest (suc fuel) p d e =
        parse_from-cut_line fuel b':' (b'-' ∷ digits wire (suc n)) a c cs rest (omega arith)
          (minus-NoReturn wire n) e
    parse_from-cut absent_items a c cs rest (suc fuel) p d e =
        parse_from-cut_line fuel b'*' (codes "-1") a c cs rest (omega arith) (omega arith) e
    parse_from-cut (bulk s) a c cs rest (suc fuel) p d e =
        let n = length (wire.encode s) in
        elim (parse_from-cut_line fuel b'$' (digits wire n) a c cs _ (omega arith)
          (digits-NoReturn wire n) e) [
            | inl waits ↦ inl waits
            | inr (b, same, left) ↦ elim (parse_bulk-cut (wire.encode s) b c cs rest left) [
              | inl waits ↦ inl (
                  ap (parse_from wire (suc fuel)) same
                  ∙ parse_from-write_line wire fuel b'$' (digits wire n) b (omega arith)
                      (digits-NoReturn wire n)
                  ∙ ap (λ t. parse_bulk wire t b) (to_number-digits wire n)
                  ∙ waits)
              | inr (a', same', left') ↦
                  inr (a', same ∙ ap (write_line b'$' (digits wire n)) same', left')
            ]
          ]
    parse_from-cut absent a c cs rest (suc fuel) p d e =
        parse_from-cut_line fuel b'$' (codes "-1") a c cs rest (omega arith) (omega arith) e
    parse_from-cut (items rs) a c cs rest (suc fuel) p d e =
        let n = count rs in
        elim (parse_from-cut_line fuel b'*' (digits wire n) a c cs _ (omega arith)
          (digits-NoReturn wire n) e) [
            | inl waits ↦ inl waits
            | inr (b, same, left) ↦ elim (parse_many-cut rs b c cs rest fuel p (omega arith) left) [
              | inl waits ↦ inl (
                  ap (parse_from wire (suc fuel)) same
                  ∙ parse_from-write_line wire fuel b'*' (digits wire n) b (omega arith)
                      (digits-NoReturn wire n)
                  ∙ ap (λ t. parse_array wire (parse_from wire fuel) t b) (to_number-digits wire n)
                  ∙ rw waits refl)
              | inr (a', same', left') ↦
                  inr (a', same ∙ ap (write_line b'*' (digits wire n)) same', left')
            ]
          ]

    parse_many-cut :
        (rs : Replies) (a : List ℕ) (c : ℕ) (cs rest : List ℕ) (fuel : ℕ)
        → ArePlain wire rs
        → depth_all rs < fuel
        → write_replies wire rs rest ≡ a ++ (c ∷ cs)
        → (parse_many (parse_from wire fuel) (count rs) a ≡ incomplete)
          ⊎ ((a' : List ℕ) × (a ≡ write_replies wire rs a') × (rest ≡ a' ++ (c ∷ cs)))
    parse_many-cut Replies.none a c cs rest fuel p d e = inr (a, refl, e)
    parse_many-cut (more r rs) a c cs rest fuel p d e =
        elim (parse_from-cut r a c cs (write_replies wire rs rest) fuel p.0 (omega arith) e) [
          | inl waits ↦ inl (rw waits refl)
          | inr (b, same, left) ↦
              let whole = parse_from-write_reply wire r b fuel p.0 (omega arith) in
              elim (parse_many-cut rs b c cs rest fuel p.1 (omega arith) left) [
                | inl waits ↦ inl (rw same (rw whole (rw waits refl)))
                | inr (a', same', left') ↦ inr (a', same ∙ ap (write_reply wire r) same', left')
              ]
        ]

  -- A reply that is cut anywhere is waited for.
  pub parse-cut :
      (r : Reply) (a : List ℕ) (c : ℕ) (cs : List ℕ)
      → IsPlain wire r
      → write_reply wire r [] ≡ a ++ (c ∷ cs)
      → parse wire a ≡ incomplete
  parse-cut r a c cs p e =
      let fuel = suc (depth r + length a) in
      elim (parse_from-cut r a c cs [] fuel p (omega arith) e) [
        | inl waits ↦ sym (parse_from-enough wire a fuel (omega arith)) ∙ waits
        | inr (a', same, left) ↦ absurd (omega (arith, ap length left, length-append a' (c ∷ cs)))
      ]
