-- ===== src/Throttler/PlainWire.antt =====
-- A concrete encoding for the examples: a text is its code points, a number that many ones.
use Prim.Native.Nat.{compare, Ordering}
use Prim.Native.Char.{Char, char, code, IsScalar, nul}
use Prim.Native.String
use text.Mathlib.TextEquality.{Char-path}
use text.Mathlib.TextLemmas.{nil-append, cons-append}
use stellar_tip_api.Common.{
  ℕ, zero, suc, String, ◌≡◌, refl, ap, ◌∙◌, ◌⊎◌, inl, inr, List, [], ◌∷◌, ◌++◌, arith, codes, eqb,
  if◌then◌else◌,
}
use stellar_tip_api.Common.Lists.{All}
use stellar_tip_api.Common.Num.{Num, num, fin, pos, negsuc}
use stellar_tip_api.Throttler.Wire.{Wire, IsDigit}

Ordering-cases : (o : Ordering) → (o ≡ Ordering.lt) ⊎ ((o ≡ Ordering.eq) ⊎ (o ≡ Ordering.gt))
Ordering-cases Ordering.lt = inl refl
Ordering-cases Ordering.eq = inr (inl refl)
Ordering-cases Ordering.gt = inr (inr refl)

-- Behind the surrogates.
dec_high :
    (n : ℕ) → (compare n 55296 ≡ Ordering.eq) ⊎ (compare n 55296 ≡ Ordering.gt) → Dec (IsScalar n)
dec_high n (inl e) = elim (Ordering-cases (compare 57343 n)) [
  | inl f ↦ elim (Ordering-cases (compare n 1114112)) [
    | inl g ↦ yes (rw (e, f, g) tt)
    | inr (inl g) ↦ no (λ p. rw (e, f, g) at p)
    | inr (inr g) ↦ no (λ p. rw (e, f, g) at p)
  ]
  | inr (inl f) ↦ no (λ p. rw (e, f) at p)
  | inr (inr f) ↦ no (λ p. rw (e, f) at p)
]
dec_high n (inr e) = elim (Ordering-cases (compare 57343 n)) [
  | inl f ↦ elim (Ordering-cases (compare n 1114112)) [
    | inl g ↦ yes (rw (e, f, g) tt)
    | inr (inl g) ↦ no (λ p. rw (e, f, g) at p)
    | inr (inr g) ↦ no (λ p. rw (e, f, g) at p)
  ]
  | inr (inl f) ↦ no (λ p. rw (e, f) at p)
  | inr (inr f) ↦ no (λ p. rw (e, f) at p)
]

pub dec_scalar : (n : ℕ) → Dec (IsScalar n)
dec_scalar n = elim (Ordering-cases (compare n 55296)) [
  | inl e ↦ yes (rw e tt)
  | inr high ↦ dec_high n high
]

abbrev pub char_of : (n : ℕ) → Dec (IsScalar n) → Char
char_of n (yes p) = char n p
char_of n (no h) = nul

code-char_of : (n : ℕ) (d : Dec (IsScalar n)) → IsScalar n → code (char_of n d) ≡ n
code-char_of n (yes p) q = refl
code-char_of n (no h) q = absurd (h q)

abbrev pub text_of : List ℕ → String
text_of [] = ""
text_of (n ∷ ns) = String.◌∷◌ (char_of n (dec_scalar n)) (text_of ns)

pub text_of-codes : (s : String) → text_of (codes s) ≡ s
text_of-codes String.[] = refl
text_of-codes (String.◌∷◌ (char n p) s) =
    let head = Char-path (char_of n (dec_scalar n)) (char n p) (code-char_of n (dec_scalar n) p) in
    let rest = text_of-codes s in λ i. String.◌∷◌ (head i) (rest i)

pub codes-append : (s t : String) → codes (String.◌++◌ s t) ≡ codes s ++ codes t
codes-append String.[] t = ap codes (nil-append t)
codes-append (String.◌∷◌ c s) t =
    ap codes (cons-append c s t) ∙ ap (λ l. code c ∷ l) (codes-append s t)

abbrev pub ones : ℕ → String
ones zero = ""
ones (suc n) = String.◌∷◌ "1" (ones n)

abbrev pub characters : String → ℕ
characters String.[] = 0
characters (String.◌∷◌ c s) = suc (characters s)

characters-ones : (n : ℕ) → characters (ones n) ≡ n
characters-ones zero = refl
characters-ones (suc n) = ap suc (characters-ones n)

abbrev pub print_num : Num → String
print_num (fin (pos n)) = ones n
print_num _ = "-1"

-- the characters but one
abbrev pub but_one : String → ℕ
but_one String.[] = 0
but_one (String.◌∷◌ c s) = characters s

abbrev pub read_num : String → Num
read_num String.[] = num 0
read_num (String.◌∷◌ c s) =
    if eqb (code c) 45 then fin (negsuc (but_one s)) else num (suc (characters s))

pub read_num-negative : (n : ℕ) → read_num (String.◌++◌ "-" (ones (suc n))) ≡ fin (negsuc n)
read_num-negative n =
    ap read_num
      (cons-append "-" "" (ones (suc n)) ∙ ap (λ s. String.◌∷◌ "-" s) (nil-append (ones (suc n))))
    ∙ ap (λ k. fin (negsuc k)) (characters-ones n)

pub read_num-ones : (n : ℕ) → read_num (ones n) ≡ num n
read_num-ones zero = refl
read_num-ones (suc n) = ap (λ k. num (suc k)) (characters-ones n)

pub ones-IsDigit : (n : ℕ) → All IsDigit (codes (ones n))
ones-IsDigit zero = tt
ones-IsDigit (suc n) = (omega arith, ones-IsDigit n)

abbrev pub plain_wire : Wire
plain_wire = record {
  string_of_num = print_num;
  to_number = read_num;
  to_number-string_of_num = read_num-ones;
  to_number-minus_one = refl;
  to_number-negative = read_num-negative;
  string_of_num-IsDigit = ones-IsDigit;
  encode = codes;
  decode = text_of;
  decode-encode = text_of-codes;
  encode-append = codes-append;
  encode-ascii = λ s h. refl;
}
