-- ===== src/Security.antt =====
-- src/config/security.config.ts: the origins that may call the API from a browser. The options of
-- helmet are constants.
pub mod Origins
mod Tests
use Prim.Native.Char.{Char, code}
use Prim.Native.String
use stellar_tip_api.Common.{
  ℕ, Bool, true, false, not, ◌||◌, String, ◌==◌, Option, none, some, List, [], ◌∷◌, map,
  if◌then◌else◌, eqb, is_empty, truthy, or_text, trim,
}

-- the piece that a character is put before
abbrev pub onto_first : Char → List String → List String
onto_first c [] = String.◌∷◌ c "" ∷ []
onto_first c (piece ∷ pieces) = String.◌∷◌ c piece ∷ pieces

-- `s.split(',')`
pub split_commas : String → List String
split_commas String.[] = "" ∷ []
split_commas (String.◌∷◌ c s) =
    let rest = split_commas s in if eqb (code c) 44 then "" ∷ rest else onto_first c rest

-- `.filter(Boolean)`
pub filter_set : List String → List String
filter_set [] = []
filter_set (s ∷ ss) = let rest = filter_set ss in if is_empty s then rest else s ∷ rest

-- `.includes(s)`
pub includes : List String → String → Bool
includes [] s = false
includes (t ∷ ts) s = let rest = includes ts s in t == s || rest

-- `string | string[]`
pub data Origin : Type 0 where
  text : String → Origin
  texts : List String → Origin

abbrev pub origins_of : String → List String
unfolding filter_set split_commas trim
origins_of raw = filter_set (map trim (split_commas raw))

abbrev pub one_or_more : List String → Origin
one_or_more (origin ∷ []) = text origin
one_or_more origins = texts origins

abbrev pub is_nil : List String → Bool
is_nil [] = true
is_nil (s ∷ ss) = false

unfoldable pub parse_cors_origin : Option String → Origin
unfolding filter_set split_commas trim includes
parse_cors_origin raw_origin =
    if not (truthy raw_origin) || is_empty (trim (or_text raw_origin ""))
    then text "*"
    else let origins = origins_of (or_text raw_origin "") in
      if is_nil origins || includes origins "*" then text "*" else one_or_more origins

pub record CorsOptions : Type 0 where
  pub origin : Origin
  pub methods : List String
  pub credentials : Bool

-- `origin !== '*'`
abbrev pub is_named : Origin → Bool
is_named (text s) = not (s == "*")
is_named (texts ss) = true

unfoldable pub create_cors_options : Option String → CorsOptions
unfolding parse_cors_origin
create_cors_options raw_origin = record {
  origin = parse_cors_origin raw_origin;
  methods = "GET" ∷ "POST" ∷ "PUT" ∷ "PATCH" ∷ "DELETE" ∷ "OPTIONS" ∷ [];
  credentials = is_named (parse_cors_origin raw_origin);
}
