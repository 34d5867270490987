-- ===== src/Shared/Logging/Tests.antt =====
-- Entries of the logger of src/shared/logging/logging.config.ts.
use stellar_tip_api.Common.{◌≡◌, refl, none, some, [], ◌∷◌, arith, ℕ, zero, suc}
use stellar_tip_api.Common.Value.{Fields, string, object, end, field, property}
use stellar_tip_api.Shared.Logging.{
  redacted, redact_sensitive, redact_fields, is_sensitive, set_field, assign, with_text, with_meta,
  format_meta, Level, log_error,
}
use stellar_tip_api.Shared.Logging.Paths.{look, shown, has_field, redacted_by_path}

abbrev request : Fields
request =
    field "user" (object (field "password" (string "pw") (field "name" (string "ann") end))) end

redacted_by_path_example :
    look ("user" ∷ "password" ∷ []) (object (redact_sensitive 0 request)) ≡ redacted
unfolding shown is_sensitive has_field look property
redacted_by_path_example = redacted_by_path ("user" ∷ "password" ∷ []) request (omega arith) refl

abbrev nested : ℕ → Fields → Fields
nested zero fs = fs
nested (suc n) fs = field "of" (object (nested n fs)) end

abbrev deep : Fields
deep = nested 6 (field "password" (string "pw") end)

-- The password of the seventh object is logged.
deep_password :
    look
      ("of" ∷ "of" ∷ "of" ∷ "of" ∷ "of" ∷ "of" ∷ "password" ∷ [])
      (object (redact_sensitive 0 deep))
    ≡ string "pw"
unfolding redact_sensitive redact_fields is_sensitive look property
deep_password = refl

-- The names that the sessions of src/auth/auth.service.ts have are no sensitive ones.
session_token :
    redact_sensitive 0 (field "refreshToken" (string "t1") end)
    ≡ field "refreshToken" (string "t1") end
unfolding redact_sensitive redact_fields is_sensitive
session_token = refl

failed : log_error "m" (some "at x") none (some (field "token" (string "t") end)) ≡ record {
  level = Level.error;
  message = "m";
  meta = field "token" redacted (field "trace" (string "at x") end);
}
unfolding log_error format_meta with_meta with_text assign set_field redact_sensitive redact_fields
    is_sensitive
failed = refl
