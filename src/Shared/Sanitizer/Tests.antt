-- ===== src/Shared/Sanitizer/Tests.antt =====
-- Texts that sanitizeText of src/shared/sanitization/text-sanitizer.ts takes in.
use stellar_tip_api.Common.{[], ◌∷◌}
use stellar_tip_api.Common.Lists.{length, All}
use stellar_tip_api.Shared.Sanitizer.{Units, sanitize_text}
use stellar_tip_api.Shared.Sanitizer.Bounds.{IsWithin, IsShown, StartsSet, sanitized_text-IsPlain}

abbrev unchanged : Units → Units
unchanged s = s

abbrev input : Units
input = 32 ∷ 104 ∷ 0 ∷ 105 ∷ 10 ∷ []

sanitized_text-IsPlain_example :
    IsWithin "displayName" (length (sanitize_text unchanged unchanged input "displayName"))
    × All IsShown (sanitize_text unchanged unchanged input "displayName")
    × StartsSet (sanitize_text unchanged unchanged input "displayName")
sanitized_text-IsPlain_example = sanitized_text-IsPlain unchanged unchanged input "displayName"
