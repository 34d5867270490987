-- ===== src/Security/Origins.antt =====
-- The origins that src/config/security.config.ts lets call with credentials.
use stellar_tip_api.Common.{
  true, false, not, ◌||◌, String, eq_iff, ◌≡◌, ◌≢◌, refl, sym, ◌⊎◌, inl, inr, Option, List, [], ◌∷◌,
  map, is_empty, truthy, or_text, or_text-empty, ◌==◌, trim, arith, Bool-cases,
}
use stellar_tip_api.Common.Lists.{Has}
use stellar_tip_api.Security.{
  split_commas, filter_set, includes, Origin, text, texts, origins_of, one_or_more, is_nil,
  parse_cors_origin, is_named, create_cors_options,
}

-- The origins of the option that are listed.
abbrev pub listed : Origin → List String
listed (text s) = s ∷ []
listed (texts ss) = ss

filter_set-Has :
    (s : String) (ss : List String) → Has s (filter_set ss) → Has s ss × (is_empty s ≡ false)
unfolding filter_set
filter_set-Has s [] m = elim m [ ]
filter_set-Has s (t ∷ ts) m = elim (Bool-cases (is_empty t)) [
  | inl e ↦ let (n, set) = filter_set-Has s ts (rw e at m) in (inr n, set)
  | inr f ↦ elim (rw f at m) [
    | inl same ↦ (inl same, rw same f)
    | inr n ↦ let (n', set) = filter_set-Has s ts n in (inr n', set)
  ]
]

filter_set-keeps :
    (s : String) (ss : List String) → Has s ss → is_empty s ≡ false → Has s (filter_set ss)
unfolding filter_set
filter_set-keeps s [] m set = elim m [ ]
filter_set-keeps s (t ∷ ts) (inl same) set = rw (← same, set) (inl refl)
filter_set-keeps s (t ∷ ts) (inr m) set =
    let rest = filter_set-keeps s ts m set in
    elim (Bool-cases (is_empty t)) [ inl e ↦ rw e rest | inr f ↦ rw f (inr rest) ]

includes-true : (s : String) (ss : List String) → includes ss s ≡ true → Has s ss
unfolding includes
includes-true s [] h = ground arith
includes-true s (t ∷ ts) h = elim (Bool-cases (t == s)) [
  | inl e ↦ inl (sym ((eq_iff t s).0 e))
  | inr f ↦ inr (includes-true s ts (ground (arith, h, f)))
]

is_nil-Has : (s : String) (ss : List String) → is_nil ss ≡ true → ¬ Has s ss
is_nil-Has s [] h m = elim m [ ]
is_nil-Has s (t ∷ ts) h m = ground arith

-- A setting that is blank.
blank_setting :
    (raw_origin : Option String)
    → (not (truthy raw_origin) || is_empty (trim (or_text raw_origin ""))) ≡ true
    → trim (or_text raw_origin "") ≡ ""
unfolding trim
blank_setting raw_origin blank = elim (Bool-cases (truthy raw_origin)) [
  | inl t ↦ (eq_iff (trim (or_text raw_origin "")) "").0 (ground (arith, blank, t))
  | inr f ↦ rw (or_text-empty raw_origin "" f) refl
]

includes-false : (s : String) (ss : List String) → includes ss s ≡ false → ¬ Has s ss
unfolding includes
includes-false s [] h m = elim m [ ]
includes-false s (t ∷ ts) h (inl e) = ground (arith, h, eq_iff t s, sym e)
includes-false s (t ∷ ts) h (inr m) = includes-false s ts (ground (arith, h)) m

listed-one_or_more : (ss : List String) → listed (one_or_more ss) ≡ ss
listed-one_or_more [] = refl
listed-one_or_more (s ∷ []) = refl
listed-one_or_more (s ∷ t ∷ ss) = refl

is_named-one_or_more :
    (ss : List String) → includes ss "*" ≡ false → is_named (one_or_more ss) ≡ true
unfolding includes
is_named-one_or_more [] h = refl
is_named-one_or_more (s ∷ []) h = ground (arith, h)
is_named-one_or_more (s ∷ t ∷ ss) h = refl

-- What the setting names between commas.
abbrev pub named_by : Option String → List String
named_by raw_origin = map trim (split_commas (or_text raw_origin ""))

-- The setting is blank, names blank texts only, or names the wildcard.
abbrev pub IsOpen : Option String → Type 0
IsOpen raw_origin =
    (trim (or_text raw_origin "") ≡ "")
    ⊎ (((s : String) → Has s (named_by raw_origin) → s ≡ "") ⊎ Has "*" (named_by raw_origin))

filter_set-nil :
    (ss : List String) → is_nil (filter_set ss) ≡ true → (s : String) → Has s ss → s ≡ ""
filter_set-nil ss none_left s m = elim (Bool-cases (is_empty s)) [
  | inl e ↦ (eq_iff s "").0 e
  | inr f ↦ absurd (is_nil-Has s (filter_set ss) none_left (filter_set-keeps s ss m f))
]

wild_setting :
    (raw_origin : Option String)
    → let origins = origins_of (or_text raw_origin "") in
      (is_nil origins || includes origins "*") ≡ true
      → ((s : String) → Has s (named_by raw_origin) → s ≡ "") ⊎ Has "*" (named_by raw_origin)
unfolding filter_set origins_of
wild_setting raw_origin wild =
    let origins = origins_of (or_text raw_origin "") in
    elim (Bool-cases (is_nil origins)) [
      | inl e ↦ inl (filter_set-nil (named_by raw_origin) e)
      | inr f ↦ inr (
          (filter_set-Has "*" (named_by raw_origin)
            (includes-true "*" origins (ground (arith, wild, f)))).0)
    ]

-- Credentials are allowed where the origins are those that the setting names between commas, the
-- blank ones left out, with no wildcard among them. The origin is the wildcard, and they are not
-- allowed, only where the setting is blank, names blank texts only, or names the wildcard.
pub credentials_need_names :
    (raw_origin : Option String)
    → let options = create_cors_options raw_origin in
      ((options.credentials ≡ false) × (options.origin ≡ text "*") × IsOpen raw_origin)
      ⊎ ((options.credentials ≡ true)
          × ((s : String)
              → Has s (listed options.origin)
              → (s ≢ "*") × (s ≢ "") × Has s (map trim (split_commas (or_text raw_origin ""))))
          × ((s : String)
              → Has s (map trim (split_commas (or_text raw_origin "")))
              → s ≢ ""
              → Has s (listed options.origin)))
unfolding create_cors_options parse_cors_origin
credentials_need_names raw_origin =
    let origins = origins_of (or_text raw_origin "") in
    elim (Bool-cases (not (truthy raw_origin) || is_empty (trim (or_text raw_origin "")))) [
      | inl blank ↦ inl (rw blank refl, rw blank refl, inl (blank_setting raw_origin blank))
      | inr given ↦ elim (Bool-cases (is_nil origins || includes origins "*")) [
        | inl wild ↦
            inl (rw (given, wild) refl, rw (given, wild) refl, inr (wild_setting raw_origin wild))
        | inr names ↦
            let no_star : includes origins "*" ≡ false = ground (arith, names) in
            rw (given, names, is_named-one_or_more origins no_star, listed-one_or_more origins)
              (inr (
                refl,
                λ s m.
                    let (n, set) =
                      filter_set-Has s (map trim (split_commas (or_text raw_origin ""))) m in
                    (
                      λ star. includes-false "*" origins no_star (rw (← star) m),
                      λ empty. ground (arith, set, eq_iff s "", empty),
                      n,
                    ),
                λ s m set.
                    filter_set-keeps s (map trim (split_commas (or_text raw_origin ""))) m
                      (ground (arith, eq_iff s "", set)),
              ))
      ]
    ]
