-- ===== src/Shared/Logging/Paths.antt =====
-- What a path of keys finds in an object that redactSensitive of
-- src/shared/logging/logging.config.ts went over.
use stellar_tip_api.Common.{
  ℕ, suc, ◌+◌, ◌≤◌, Bool, true, false, String, ◌==◌, eq_iff, ◌≡◌, refl, ◌⊎◌, inl, inr, List, [],
  ◌∷◌, if◌then◌else◌, ltb, arith, Bool-cases,
}
use stellar_tip_api.Common.Lists.{length}
use stellar_tip_api.Common.Value.{
  Value, Fields, undefined, null, bool, number, bigint, string, array, object, end, field, property,
}
use stellar_tip_api.Shared.Logging.{
  redacted, is_sensitive, redact_value, redact_fields, redact_sensitive,
}

-- `v[key]...`, where only objects have properties
unfoldable pub look : List String → Value → Value
look [] v = v
look (key ∷ keys) (object fs) = look keys (property fs key)
look (key ∷ keys) v = undefined

unfoldable pub has_field : Fields → String → Bool
has_field end key = false
has_field (field k v fs) key = let rest = has_field fs key in if k == key then true else rest

abbrev pub masked : Bool → Value
masked true = redacted
masked false = undefined

-- What a reader of the log is to find at a path: the mask from the first sensitive key on, and
-- what was logged where no key is sensitive.
unfoldable pub shown : List String → Value → Value
unfolding look has_field
shown [] v = v
shown (key ∷ keys) (object fs) =
    let found = shown keys (property fs key) in
    if is_sensitive key then look keys (masked (has_field fs key)) else found
shown (key ∷ keys) v = undefined

abbrev pub is_object : Value → Bool
is_object (object fs) = true
is_object v = false

property-redact_fields :
    (depth : ℕ) (fs : Fields) (key : String)
    → property (redact_fields depth fs) key ≡ (
        if is_sensitive key
        then masked (has_field fs key)
        else redact_value depth (property fs key))
unfolding property redact_fields redact_value has_field
property-redact_fields depth end key = elim (Bool-cases (is_sensitive key)) [
  | inl t ↦ rw t refl
  | inr f ↦ rw f refl
]
property-redact_fields depth (field k v fs) key =
    let rest = property-redact_fields depth fs key in
    elim (Bool-cases (k == key)) [
      | inl here ↦
          let same = (eq_iff k key).0 here in
          elim (Bool-cases (is_sensitive key)) [
            | inl t ↦ rw (here, same, t) refl
            | inr f ↦ rw (here, same, f) refl
          ]
      | inr other ↦ rw other rest
    ]

-- Below a value that is no object nothing is found.
look-shown : (keys : List String) (v : Value) → is_object v ≡ false → look keys v ≡ shown keys v
unfolding look shown
look-shown [] v leaf = refl
look-shown (key ∷ keys) (object fs) leaf = absurd (ground (arith, leaf))
look-shown (key ∷ keys) undefined leaf = refl
look-shown (key ∷ keys) null leaf = refl
look-shown (key ∷ keys) (bool b) leaf = refl
look-shown (key ∷ keys) (number n) leaf = refl
look-shown (key ∷ keys) (bigint n) leaf = refl
look-shown (key ∷ keys) (string s) leaf = refl
look-shown (key ∷ keys) (array vs) leaf = refl

redact_value-leaf : (depth : ℕ) (v : Value) → is_object v ≡ false → redact_value depth v ≡ v
unfolding redact_value
redact_value-leaf depth undefined leaf = refl
redact_value-leaf depth null leaf = refl
redact_value-leaf depth (bool b) leaf = refl
redact_value-leaf depth (number n) leaf = refl
redact_value-leaf depth (bigint n) leaf = refl
redact_value-leaf depth (string s) leaf = refl
redact_value-leaf depth (array vs) leaf = refl
redact_value-leaf depth (object fs) leaf = absurd (ground (arith, leaf))

object-cases : (v : Value) → ((fs : Fields) × (v ≡ object fs)) ⊎ (is_object v ≡ false)
object-cases undefined = inr refl
object-cases null = inr refl
object-cases (bool b) = inr refl
object-cases (number n) = inr refl
object-cases (bigint n) = inr refl
object-cases (string s) = inr refl
object-cases (array vs) = inr refl
object-cases (object fs) = inl (fs, refl)

within_depth :
    (depth : ℕ) (fs : Fields) → depth ≤ 5 → redact_sensitive depth fs ≡ redact_fields depth fs
unfolding redact_sensitive
within_depth depth fs h = let near : ltb 5 depth ≡ false = ground (arith, h) in rw near refl

redact_value-object :
    (depth : ℕ) (fs : Fields)
    → redact_value depth (object fs) ≡ object (redact_sensitive (suc depth) fs)
unfolding redact_value redact_sensitive
redact_value-object depth fs = refl

path_below :
    (keys : List String) (depth : ℕ) (fs : Fields)
    → length keys + depth ≤ 6
    → is_object (shown keys (object fs)) ≡ false
    → look keys (object (redact_sensitive depth fs)) ≡ shown keys (object fs)
unfolding look shown
path_below [] depth fs short leaf = absurd (ground (arith, leaf))
path_below (key ∷ keys) depth fs short leaf =
    rw (within_depth depth fs (omega (arith, short)), property-redact_fields depth fs key)
      elim (Bool-cases (is_sensitive key)) [
        | inl t ↦ rw t refl
        | inr f ↦ elim (object-cases (property fs key)) [
          | inr flat ↦
              rw (f, redact_value-leaf depth (property fs key) flat)
                (look-shown keys (property fs key) flat)
          | inl (gs, below) ↦
              let leaf' : is_object (shown keys (object gs)) ≡ false = rw (f, below) at leaf in
              rw (f, below, redact_value-object depth gs)
                (path_below keys (suc depth) gs (omega (arith, short)) leaf')
        ]
      ]

-- At a path of at most six keys an object that is redacted shows the mask from the first sensitive
-- key on, and what it held before where no key is sensitive and that is no object.
pub redacted_by_path :
    (keys : List String) (fs : Fields)
    → length keys ≤ 6
    → is_object (shown keys (object fs)) ≡ false
    → look keys (object (redact_sensitive 0 fs)) ≡ shown keys (object fs)
redacted_by_path keys fs short leaf = path_below keys 0 fs (omega (arith, short)) leaf
