-- ===== src/Shared/Sanitizer.antt =====
-- src/shared/sanitization/text-sanitizer.ts. A text is the list of its UTF-16 units, since `slice`
-- may cut a pair of surrogates. `sanitize-html` and `normalize('NFC')` are parameters.
pub mod Bounds
mod Tests
use stellar_tip_api.Common.{
  ℕ, Bool, true, false, not, ◌&&◌, ◌||◌, String, ◌==◌, List, [], ◌∷◌, if◌then◌else◌, leb, eqb,
  is_space,
}
use stellar_tip_api.Common.Lists.{take}

abbrev pub Units : Type 0
Units = List ℕ

-- `FIELD_LIMITS[field] ?? 1000`, for the names that the program gives
pub limit_of_field : String → ℕ
limit_of_field field =
    if field == "bio"
    then 500
    else if field == "displayName"
    then 60
    else if field == "message"
    then 280
    else 1000

-- `CONTROL_CHAR_RE`
pub is_control : ℕ → Bool
is_control c = leb c 8 || eqb c 0xb || eqb c 0xc || (leb 0xe c && leb c 0x1f) || eqb c 0x7f

-- `.replace(CONTROL_CHAR_RE, '')`
pub remove_controls : Units → Units
unfolding is_control
remove_controls [] = []
remove_controls (c ∷ cs) = let rest = remove_controls cs in if is_control c then rest else c ∷ rest

abbrev pub is_nil : Units → Bool
is_nil [] = true
is_nil (c ∷ cs) = false

pub trim_units_start : Units → Units
trim_units_start [] = []
trim_units_start (c ∷ cs) = let rest = trim_units_start cs in if is_space c then rest else c ∷ cs

pub trim_units_end : Units → Units
trim_units_end [] = []
trim_units_end (c ∷ cs) =
    let rest = trim_units_end cs in if is_space c && is_nil rest then [] else c ∷ rest

module _ (sanitize_html normalize : Units → Units) where
  pub sanitize_text : Units → String → Units
  unfolding remove_controls trim_units_start trim_units_end limit_of_field
  sanitize_text input field =
      if is_nil input
      then []
      else take (limit_of_field field)
          (trim_units_end (trim_units_start (remove_controls (normalize (sanitize_html input)))))
