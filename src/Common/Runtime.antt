-- ===== src/Common/Runtime.antt =====
-- The parts of the JavaScript runtime that are parameters of the model: the printing and reading
-- of numbers and dates, and the crypto module. A date is a count of milliseconds from the
-- earliest date that JavaScript has, so that every date is a natural number.
use Prim.Native.Nat.{ℕ}
use Prim.Native.String.{String}
use mathlib.Core.Path.{◌≡◌}
use mathlib.Core.Logic.{◌↔◌}
use mathlib.Core.Bool.{Bool, true, false}
use mathlib.Core.Option.{Option}
use mathlib.Core.List.{List}
use text.Mathlib.Text.{◌==◌}
use stellar_tip_api.Common.Num.{ℤ, Num}

pub record Js : Type 0 where
  -- `String(n)`
  pub string_of_num : Num → String
  pub string_of_bigint : ℤ → String
  -- `Number(s)` of a string, and of a bigint
  pub to_number : String → Num
  pub number_of_bigint : ℤ → Num
  -- `parseFloat(s)`
  pub parse_float : String → Num
  -- `new Date(s)`; `none` is the invalid date
  pub parse_date : String → Option ℕ
  pub to_iso_string : ℕ → String

pub record Crypto : Type 0 where
  -- `createHmac('sha256', secret).update(body).digest('hex')`
  pub hmac_sha256_hex : String → List ℕ → String
  -- a digest has 64 hexadecimal digits
  pub hmac_sha256_hex_set :
      (secret : String) (body : List ℕ) → (hmac_sha256_hex secret body == "") ≡ false
  -- `Buffer.from(s, 'utf8')`
  pub utf8 : String → List ℕ
  pub utf8_injective : (s t : String) → utf8 s ≡ utf8 t → s ≡ t
  -- `timingSafeEqual`, called on buffers of one length
  pub timing_safe_equal : List ℕ → List ℕ → Bool
  pub timing_safe_equal_iff : (a b : List ℕ) → (timing_safe_equal a b ≡ true) ↔ (a ≡ b)
