-- ===== src/Shared/Logging.antt =====
-- src/shared/logging/logging.config.ts: the logger's calls and what they keep out of the log. The
-- transports of winston, which write an entry, are left out.
pub mod Paths
mod Tests
use stellar_tip_api.Common.{
  ℕ, suc, Bool, ◌||◌, true, false, String, ◌==◌, Option, none, some, if◌then◌else◌, ltb, truthy,
  or_text,
}
use stellar_tip_api.Common.Value.{Value, Fields, object, string, end, field}

abbrev pub redacted : Value
redacted = string "***REDACTED***"

-- `SENSITIVE_FIELDS.has(key)`
unfoldable pub is_sensitive : String → Bool
is_sensitive key =
    key == "password"
    || key == "token"
    || key == "access_token"
    || key == "refresh_token"
    || key == "secret"
    || key == "authorization"
    || key == "privateKey"

unfoldable mutual
  unfolding is_sensitive

  -- the value of a field that is not sensitive, of an object at a depth
  pub redact_value : ℕ → Value → Value
  redact_value depth (object fs) =
      let inner = redact_fields (suc depth) fs in object (if ltb 5 (suc depth) then fs else inner)
  redact_value depth v = v

  pub redact_fields : ℕ → Fields → Fields
  redact_fields depth end = end
  redact_fields depth (field key v fs) =
      let value = redact_value depth v in
      field key (if is_sensitive key then redacted else value) (redact_fields depth fs)

unfoldable pub redact_sensitive : ℕ → Fields → Fields
redact_sensitive depth fs = if ltb 5 depth then fs else redact_fields depth fs

-- `formatted[key] = value`
unfoldable pub set_field : String → Value → Fields → Fields
set_field key v end = field key v end
set_field key v (field k w fs) =
    let rest = set_field key v fs in if k == key then field k v fs else field k w rest

-- `Object.assign(formatted, source)`
unfoldable pub assign : Fields → Fields → Fields
assign formatted end = formatted
assign formatted (field key v fs) = assign (set_field key v formatted) fs

-- `if (text) formatted[key] = text`
unfoldable pub with_text : String → Option String → Fields → Fields
unfolding set_field
with_text key text fs = if truthy text then set_field key (string (or_text text "")) fs else fs

unfoldable pub with_meta : Option Fields → Fields → Fields
unfolding assign redact_sensitive
with_meta none fs = fs
with_meta (some meta) fs = assign fs (redact_sensitive 0 meta)

unfoldable pub format_meta : Option String → Option Fields → Fields
unfolding with_text with_meta
format_meta context meta = with_meta meta (with_text "context" context end)

pub data Level : Type 0 where
  info error warn debug verbose : Level

-- What winston is given.
pub record Entry : Type 0 where
  pub level : Level
  pub message : String
  pub meta : Fields

-- `log`, `warn`, `debug` and `verbose` differ in the level.
unfoldable pub log_at : Level → String → Option String → Option Fields → Entry
unfolding format_meta
log_at level message context meta = record {
  level = level;
  message = message;
  meta = format_meta context meta;
}

unfoldable pub log_error : String → Option String → Option String → Option Fields → Entry
unfolding format_meta with_text
log_error message trace context meta = record {
  level = error;
  message = message;
  meta = with_text "trace" trace (format_meta context meta);
}
