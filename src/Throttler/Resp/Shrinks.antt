-- ===== src/Throttler/Resp/Shrinks.antt =====
-- What `parse` of src/config/redis-throttler.storage.ts leaves of the bytes.
use stellar_tip_api.Common.{
  ℕ, zero, suc, ◌+◌, ◌≤◌, String, ◌≡◌, refl, inl, inr, some, List, [], ◌∷◌, arith, Option-cases,
}
use stellar_tip_api.Common.Num.{Num, fin, pos, negsuc}
use stellar_tip_api.Common.Lists.{length, drop, length-drop}
use stellar_tip_api.Common.Value.{Value}
use stellar_tip_api.Throttler.Wire.{Wire}
use stellar_tip_api.Throttler.Resp.{
  and_parse, Parse, incomplete, fault, unmodelled, out_of_fuel, parsed, split_line, parse_many,
  parse_bulk, parse_array, parse_prefix, parse_from,
}

pub split_line-shorter :
    (bytes before after : List ℕ)
    → split_line bytes ≡ some (before, after)
    → length after + 2 ≤ length bytes
unfolding split_line
split_line-shorter [] before after e = ground arith
split_line-shorter (a ∷ []) before after e = ground arith
split_line-shorter (a ∷ b ∷ bs) before after e = elim (Option-cases (split_line (b ∷ bs))) [
  | inl n ↦ ground arith
  | inr ((before', after'), s) ↦ ground (arith, split_line-shorter (b ∷ bs) before' after' s)
]

abbrev pub Shrinks : {A : Type 0} → (List ℕ → Parse A) → Type 0
Shrinks {A} p =
    (bytes : List ℕ) (v : A) (rest : List ℕ) → p bytes ≡ parsed v rest → length rest ≤ length bytes

incomplete-ne-parsed : {A : Type 0} {a : A} {rest : List ℕ} → incomplete ≡ parsed a rest → ⊥
incomplete-ne-parsed e = ground arith

and_parse-inv :
    {A B : Type 0} (r : Parse A) (f : A → List ℕ → Parse B) {b : B} {rest : List ℕ}
    → and_parse r f ≡ parsed b rest
    → (a : A) × (mid : List ℕ) × (r ≡ parsed a mid) × (f a mid ≡ parsed b rest)
and_parse-inv (parsed a mid) f e = (a, mid, refl, e)
and_parse-inv incomplete f e = ground arith
and_parse-inv (fault x) f e = ground arith
and_parse-inv unmodelled f e = ground arith
and_parse-inv out_of_fuel f e = ground arith

parse_many-Shrinks : (p : List ℕ → Parse Value) (n : ℕ) → Shrinks p → Shrinks (parse_many p n)
unfolding parse_many
parse_many-Shrinks p zero s bytes v rest e = ground arith
parse_many-Shrinks p (suc n) s bytes v rest e =
    let (w, mid, one, e1) = and_parse-inv (p bytes) _ e in
    let (ws, end, others, e2) = and_parse-inv (parse_many p n mid) _ e1 in
    ground (arith, s bytes w mid one, parse_many-Shrinks p n s mid ws end others)

module _ (wire : Wire) where
  parse_bulk-Shrinks : (n : Num) → Shrinks (parse_bulk wire n)
  unfolding parse_bulk
  parse_bulk-Shrinks (fin (negsuc zero)) bytes v rest e = ground arith
  parse_bulk-Shrinks (fin (pos n)) bytes v rest e = ground (arith, length-drop (n + 2) bytes)
  parse_bulk-Shrinks _ bytes v rest e = ground arith

  parse_array-Shrinks :
      (p : List ℕ → Parse Value) (n : Num) → Shrinks p → Shrinks (parse_array wire p n)
  unfolding parse_array
  parse_array-Shrinks p (fin (pos n)) s bytes v rest e =
      let (vs, end, many, e1) = and_parse-inv (parse_many p n bytes) _ e in
      ground (arith, parse_many-Shrinks p n s bytes vs end many)
  parse_array-Shrinks p _ s bytes v rest e = ground arith

  parse_prefix-Shrinks :
      (p : List ℕ → Parse Value) (prefix : ℕ) (line : String)
      → Shrinks p
      → Shrinks (parse_prefix wire p prefix line)
  unfolding parse_prefix
  parse_prefix-Shrinks p prefix line s bytes v rest e = ground (
    arith,
    parse_bulk-Shrinks (wire.to_number line) bytes v rest,
    parse_array-Shrinks p (wire.to_number line) s bytes v rest,
  )

  pub parse_from-Shrinks : (fuel : ℕ) → Shrinks (parse_from wire fuel)
  unfolding parse_from
  parse_from-Shrinks zero bytes v rest e = ground arith
  parse_from-Shrinks (suc fuel) [] v rest e = ground arith
  parse_from-Shrinks (suc fuel) (x ∷ bytes) v rest e =
      elim (Option-cases (split_line (x ∷ bytes))) [
        | inl n ↦ absurd (incomplete-ne-parsed (rw n at e))
        | inr ((before, after), found) ↦
            let shorter = split_line-shorter (x ∷ bytes) before after found in
            let behind =
              parse_prefix-Shrinks (parse_from wire fuel) x (wire.decode (drop 1 before))
                (parse_from-Shrinks fuel) after v rest (rw found at e) in
            omega (arith, shorter, behind)
      ]
