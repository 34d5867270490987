-- ===== src/Security/Tests.antt =====
-- Settings of the origins of src/config/security.config.ts.
use stellar_tip_api.Common.{true, false, String, ◌≡◌, ◌≢◌, refl, ◌⊎◌, some, [], ◌∷◌, map, trim}
use stellar_tip_api.Common.Lists.{Has}
use stellar_tip_api.Security.{split_commas, text, texts, parse_cors_origin, create_cors_options}
use stellar_tip_api.Security.Origins.{listed, IsOpen, credentials_need_names}

credentials_need_names_example :
    let options = create_cors_options (some " https://a.io ,,https://b.io") in
    ((options.credentials ≡ false)
      × (options.origin ≡ text "*")
      × IsOpen (some " https://a.io ,,https://b.io"))
    ⊎ ((options.credentials ≡ true)
        × ((s : String)
            → Has s (listed options.origin)
            → (s ≢ "*") × (s ≢ "") × Has s (map trim (split_commas " https://a.io ,,https://b.io")))
        × ((s : String)
            → Has s (map trim (split_commas " https://a.io ,,https://b.io"))
            → s ≢ ""
            → Has s (listed options.origin)))
credentials_need_names_example = credentials_need_names (some " https://a.io ,,https://b.io")

two_origins :
    parse_cors_origin (some " https://a.io ,,https://b.io")
    ≡ texts ("https://a.io" ∷ "https://b.io" ∷ [])
unfolding parse_cors_origin
two_origins = refl

wildcard : parse_cors_origin (some "https://a.io, *") ≡ text "*"
unfolding parse_cors_origin
wildcard = refl
