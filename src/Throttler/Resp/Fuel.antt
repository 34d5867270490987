-- ===== src/Throttler/Resp/Fuel.antt =====
-- The fuel of `parse_from` is enough: each value takes bytes away, so that as much fuel as there
-- are bytes gives what any more would.
use native.Mathlib.Decide.{dec_lt}
use stellar_tip_api.Common.{
  ℕ, zero, suc, ◌<◌, String, ◌≡◌, ◌≢◌, refl, sym, ap, ◌∙◌, ◌⊎◌, inl, inr, List, [], ◌∷◌, arith,
  Option-cases,
}
use stellar_tip_api.Common.Num.{Num, fin, pos, negsuc}
use stellar_tip_api.Common.Lists.{length, drop}
use stellar_tip_api.Common.Value.{Value}
use stellar_tip_api.Throttler.Wire.{Wire}
use stellar_tip_api.Throttler.Resp.{
  and_parse, Parse, incomplete, fault, unmodelled, out_of_fuel, parsed, Fault, split_line,
  parse_many, parse_bulk, parse_array, parse_prefix, parse_from, parse,
}
use stellar_tip_api.Throttler.Resp.Shrinks.{split_line-shorter, Shrinks, parse_from-Shrinks}

-- The two agree on fewer than `limit` bytes.
abbrev Agree : {A : Type 0} → ℕ → (List ℕ → Parse A) → (List ℕ → Parse A) → Type 0
Agree limit p q = (bytes : List ℕ) → length bytes < limit → p bytes ≡ q bytes

-- The fuel does not run out on fewer than `limit` bytes.
abbrev Ends : {A : Type 0} → ℕ → (List ℕ → Parse A) → Type 0
Ends limit p = (bytes : List ℕ) → length bytes < limit → p bytes ≢ out_of_fuel

Parse-cases :
    {A : Type 0} (r : Parse A)
    → ((a : A) × (rest : List ℕ) × (r ≡ parsed a rest))
      ⊎ ((r ≡ incomplete)
          ⊎ (((e : Fault) × (r ≡ fault e)) ⊎ ((r ≡ unmodelled) ⊎ (r ≡ out_of_fuel))))
Parse-cases incomplete = inr (inl refl)
Parse-cases (fault e) = inr (inr (inl (e, refl)))
Parse-cases unmodelled = inr (inr (inr (inl refl)))
Parse-cases out_of_fuel = inr (inr (inr (inr refl)))
Parse-cases (parsed a rest) = inl (a, rest, refl)

incomplete-ne-out : ◌≢◌ {A = Parse Value} incomplete out_of_fuel
incomplete-ne-out e = ground arith

and_parse-ends :
    {A B : Type 0} (r : Parse A) (f : A → List ℕ → Parse B)
    → r ≢ out_of_fuel
    → ((a : A) (rest : List ℕ) → r ≡ parsed a rest → f a rest ≢ out_of_fuel)
    → and_parse r f ≢ out_of_fuel
and_parse-ends (parsed a rest) f one next e = next a rest refl e
and_parse-ends incomplete f one next e = ground arith
and_parse-ends (fault x) f one next e = ground arith
and_parse-ends unmodelled f one next e = ground arith
and_parse-ends out_of_fuel f one next e = one refl

parse_many-Agree :
    (p q : List ℕ → Parse Value) (limit n : ℕ)
    → Shrinks p
    → Agree limit p q
    → Agree limit (parse_many p n) (parse_many q n)
unfolding parse_many
parse_many-Agree p q limit zero s agree bytes small = refl
parse_many-Agree p q limit (suc n) s agree bytes small = elim (Parse-cases (p bytes)) [
  | inl (w, mid, one) ↦
      let same = agree bytes small in
      let others = parse_many-Agree p q limit n s agree mid (omega (arith, s bytes w mid one)) in
      rw (← same) (rw one (rw others refl))
  | inr (inl e) ↦ let same = agree bytes small in rw (← same) (rw e refl)
  | inr (inr (inl (x, e))) ↦ let same = agree bytes small in rw (← same) (rw e refl)
  | inr (inr (inr (inl e))) ↦ let same = agree bytes small in rw (← same) (rw e refl)
  | inr (inr (inr (inr e))) ↦ let same = agree bytes small in rw (← same) (rw e refl)
]

parse_many-Ends :
    (p : List ℕ → Parse Value) (limit n : ℕ)
    → Shrinks p
    → Ends limit p
    → Ends limit (parse_many p n)
unfolding parse_many
parse_many-Ends p limit zero s ends bytes small e = ground arith
parse_many-Ends p limit (suc n) s ends bytes small stops =
    and_parse-ends (p bytes) _ (ends bytes small)
      (λ v mid one.
        and_parse-ends (parse_many p n mid) _
          (parse_many-Ends p limit n s ends mid (omega (arith, s bytes v mid one)))
          (λ vs end many e. ground arith))
      stops

module _ (wire : Wire) where
  parse_array-Agree :
      (p q : List ℕ → Parse Value) (limit : ℕ) (n : Num)
      → Shrinks p
      → Agree limit p q
      → Agree limit (parse_array wire p n) (parse_array wire q n)
  unfolding parse_array
  parse_array-Agree p q limit (fin (pos n)) s agree bytes small =
      rw (parse_many-Agree p q limit n s agree bytes small) refl
  parse_array-Agree p q limit _ s agree bytes small = refl

  parse_prefix-Agree :
      (p q : List ℕ → Parse Value) (limit prefix : ℕ) (line : String)
      → Shrinks p
      → Agree limit p q
      → Agree limit (parse_prefix wire p prefix line) (parse_prefix wire q prefix line)
  unfolding parse_prefix
  parse_prefix-Agree p q limit prefix line s agree bytes small =
      ground (arith, parse_array-Agree p q limit (wire.to_number line) s agree bytes small)

  parse_array-Ends :
      (p : List ℕ → Parse Value) (limit : ℕ) (n : Num)
      → Shrinks p
      → Ends limit p
      → Ends limit (parse_array wire p n)
  unfolding parse_array
  parse_array-Ends p limit (fin (pos n)) s ends bytes small stops =
      and_parse-ends (parse_many p n bytes) _ (parse_many-Ends p limit n s ends bytes small)
        (λ vs end many e. ground arith) stops
  parse_array-Ends p limit _ s ends bytes small e = ground arith

  parse_bulk-ends : (n : Num) (bytes : List ℕ) → parse_bulk wire n bytes ≢ out_of_fuel
  unfolding parse_bulk
  parse_bulk-ends (fin (negsuc zero)) bytes e = ground arith
  parse_bulk-ends (fin (pos n)) bytes e = ground arith
  parse_bulk-ends _ bytes e = ground arith

  parse_prefix-Ends :
      (p : List ℕ → Parse Value) (limit prefix : ℕ) (line : String)
      → Shrinks p
      → Ends limit p
      → Ends limit (parse_prefix wire p prefix line)
  unfolding parse_prefix
  parse_prefix-Ends p limit prefix line s ends bytes small e = ground (
    arith,
    e,
    parse_bulk-ends (wire.to_number line) bytes,
    parse_array-Ends p limit (wire.to_number line) s ends bytes small,
  )

  -- Fuel for each byte and one more does not run out.
  parse_from-Ends : (fuel : ℕ) → Ends fuel (parse_from wire fuel)
  unfolding parse_from
  parse_from-Ends zero bytes small e = absurd (omega arith)
  parse_from-Ends (suc fuel) [] small e = ground arith
  parse_from-Ends (suc fuel) (x ∷ bytes) small e = elim (Option-cases (split_line (x ∷ bytes))) [
    | inl n ↦ incomplete-ne-out (rw n at e)
    | inr ((before, after), found) ↦
        parse_prefix-Ends (parse_from wire fuel) fuel x (wire.decode (drop 1 before))
          (parse_from-Shrinks wire fuel) (parse_from-Ends fuel) after
          (omega (arith, split_line-shorter (x ∷ bytes) before after found)) (rw found at e)
  ]

  -- More fuel than bytes changes nothing.
  parse_from-more : (fuel : ℕ) → Agree fuel (parse_from wire fuel) (parse_from wire (suc fuel))
  unfolding parse_from
  parse_from-more zero bytes small = absurd (omega arith)
  parse_from-more (suc fuel) [] small = refl
  parse_from-more (suc fuel) (x ∷ bytes) small = elim (Option-cases (split_line (x ∷ bytes))) [
    | inl n ↦ rw n refl
    | inr ((before, after), found) ↦ rw found (
        parse_prefix-Agree (parse_from wire fuel) (parse_from wire (suc fuel)) fuel x
          (wire.decode (drop 1 before)) (parse_from-Shrinks wire fuel) (parse_from-more fuel) after
          (omega (arith, split_line-shorter (x ∷ bytes) before after found)))
  ]

  pub parse_from-enough :
      (bytes : List ℕ) (fuel : ℕ)
      → length bytes < fuel
      → parse_from wire fuel bytes ≡ parse wire bytes
  unfolding parse
  parse_from-enough bytes zero small = absurd (omega arith)
  parse_from-enough bytes (suc fuel) small = elim (dec_lt (length bytes) fuel) [
    | yes below ↦ sym (parse_from-more fuel bytes below) ∙ parse_from-enough bytes fuel below
    | no above ↦
        let same : fuel ≡ length bytes = omega arith in ap (λ k. parse_from wire (suc k) bytes) same
  ]

  -- The recursion of `parse` ends: on every text its fuel does not run out, and more fuel gives the
  -- same result.
  pub parse-parse_from :
      (bytes : List ℕ) (fuel : ℕ)
      → length bytes < fuel
      → (parse wire bytes ≢ out_of_fuel) × (parse_from wire fuel bytes ≡ parse wire bytes)
  unfolding parse
  parse-parse_from bytes fuel small =
      (parse_from-Ends (suc (length bytes)) bytes (omega arith), parse_from-enough bytes fuel small)
