-- ===== src/Common/Text.antt =====
-- What the program uses of JavaScript's strings: truthiness, `||`, `trim`, case mapping.
-- A string is a native text; a string that may be absent is an `Option`.
use Prim.Native.Nat.{ℕ, ◌-◌, ◌+◌}
use Prim.Native.Char.{code}
use Prim.Native.String.{String}
use mathlib.Core.Path.{◌≡◌, refl, ap}
use mathlib.Core.Logic.{inl, inr}
use mathlib.Core.Bool.{Bool, true, false, not, ◌&&◌, ◌||◌}
use mathlib.Core.Option.{Option, none, some}
use mathlib.Core.List.{List, [], ◌∷◌}
use native.Mathlib.Omega.{arith}
use text.Mathlib.Text.{◌==◌}
use text.Mathlib.TextEquality.{eq_iff}
use stellar_tip_api.Common.Tests.{Bool-cases, leb, eqb, if◌then◌else◌}

-- `Boolean(s)` for `s : string`
abbrev pub is_empty : String → Bool
is_empty s = s == ""

-- `Boolean(s)` for `s : string | null | undefined`
abbrev pub truthy : Option String → Bool
truthy none = false
truthy (some s) = not (is_empty s)

-- `s || null`
abbrev pub non_empty : Option String → Option String
non_empty none = none
non_empty (some s) = if is_empty s then none else some s

-- `s || t`, where `t` may be null
abbrev pub or_else : Option String → Option String → Option String
or_else none t = t
or_else (some s) t = if is_empty s then t else some s

-- `s || t`
abbrev pub or_text : Option String → String → String
or_text none t = t
or_text (some s) t = if is_empty s then t else s

-- `column = s` in a query: a null column equals nothing
abbrev pub column_is : Option String → String → Bool
column_is none s = false
column_is (some c) s = c == s

-- White space and line ends, as `trim` takes them.
pub is_space : ℕ → Bool
is_space c =
    (leb 9 c && leb c 13)
    || eqb c 32
    || eqb c 160
    || eqb c 0x1680
    || (leb 0x2000 c && leb c 0x200a)
    || eqb c 0x2028
    || eqb c 0x2029
    || eqb c 0x202f
    || eqb c 0x205f
    || eqb c 0x3000
    || eqb c 0xfeff

trim_start : String → String
unfolding is_space
trim_start String.[] = ""
trim_start (String.◌∷◌ c s) =
    let rest = trim_start s in if is_space (code c) then rest else String.◌∷◌ c s

trim_end : String → String
unfolding is_space
trim_end String.[] = ""
trim_end (String.◌∷◌ c s) =
    let rest = trim_end s in if is_space (code c) && is_empty rest then "" else String.◌∷◌ c rest

-- `s.trim()`
unfoldable pub trim : String → String
unfolding trim_start trim_end
trim s = trim_end (trim_start s)

-- The code points of a text.
abbrev pub codes : String → List ℕ
codes String.[] = []
codes (String.◌∷◌ c s) = code c ∷ codes s

-- One code point of `toUpperCase`. Beside a-z only U+017F has an upper case among A-Z that the
-- program's texts hold; the program compares the result with texts of A-Z alone.
upper_code : ℕ → ℕ
upper_code c = if leb 97 c && leb c 122 then c - 32 else if eqb c 0x17f then 83 else c

lower_code : ℕ → ℕ
lower_code c = if leb 65 c && leb c 90 then c + 32 else if eqb c 0x212a then 107 else c

codes_eq : List ℕ → List ℕ → Bool
codes_eq [] [] = true
codes_eq (a ∷ as') (b ∷ bs) = eqb a b && codes_eq as' bs
codes_eq _ _ = false

map_codes : (ℕ → ℕ) → List ℕ → List ℕ
map_codes f [] = []
map_codes f (c ∷ cs) = f c ∷ map_codes f cs

-- `s.toUpperCase() === t`, `s.toLowerCase() === t`, for an ASCII `t`
unfoldable pub upper_is : String → String → Bool
unfolding codes_eq map_codes upper_code
upper_is s t = codes_eq (map_codes upper_code (codes s)) (codes t)

unfoldable pub lower_is : String → String → Bool
unfolding codes_eq map_codes lower_code
lower_is s t = codes_eq (map_codes lower_code (codes s)) (codes t)

pub or_text-empty : (o : Option String) (t : String) → truthy o ≡ false → or_text o t ≡ t
or_text-empty none t h = refl
or_text-empty (some s) t h = ground arith

pub non_empty-some :
    (o : Option String) (s : String) → non_empty o ≡ some s → (o ≡ some s) × (is_empty s ≡ false)
non_empty-some none s h = ground arith
non_empty-some (some t) s h = ground (arith, eq_iff t "", eq_iff s "")

upper_long_s : upper_is "uſdc" "USDC" ≡ true
unfolding upper_is
upper_long_s = refl

trim_both : trim "  a b  " ≡ "a b"
unfolding trim
trim_both = refl

pub column_is-some : (c : Option String) (s : String) → column_is c s ≡ true → c ≡ some s
column_is-some none s h = ground arith
column_is-some (some t) s h = ap some ((eq_iff t s).0 h)

-- A text that is not empty when trimmed is not empty.
pub trim-set : (s t : String) → trim s ≡ t → is_empty t ≡ false → is_empty s ≡ false
unfolding trim
trim-set s t e h = elim (Bool-cases (is_empty s)) [
  | inl f ↦
      let blank : t ≡ "" = rw (← e) (rw ((eq_iff s "").0 f) refl) in
      absurd (ground (arith, h, (eq_iff t "").1 blank))
  | inr f ↦ f
]
