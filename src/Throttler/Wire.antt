-- ===== src/Throttler/Wire.antt =====
-- What src/config/redis-throttler.storage.ts uses of JavaScript's numbers and of Node's buffers, as
-- parameters. The laws are those of decimal printing and of UTF-8.
use Prim.Native.String
use stellar_tip_api.Common.{ℕ, zero, suc, ◌≤◌, ◌<◌, String, ◌≡◌, List, ◌++◌, codes}
use stellar_tip_api.Common.Lists.{All}
use stellar_tip_api.Common.Num.{Num, num, fin, negsuc}

abbrev pub IsDigit : ℕ → Type 0
IsDigit c = (b'0' ≤ c) × (c ≤ b'9')

pub record Wire : Type 0 where
  -- `String(n)`, `Number(s)`
  pub string_of_num : Num → String
  pub to_number : String → Num
  pub to_number-string_of_num : (n : ℕ) → to_number (string_of_num (num n)) ≡ num n
  pub to_number-minus_one : to_number "-1" ≡ fin (negsuc zero)
  pub to_number-negative :
      (n : ℕ) → to_number (String.◌++◌ "-" (string_of_num (num (suc n)))) ≡ fin (negsuc n)
  pub string_of_num-IsDigit : (n : ℕ) → All IsDigit (codes (string_of_num (num n)))
  -- `Buffer.from(s)`, which is what `socket.write(s)` sends, and `buffer.toString('utf8')`
  pub encode : String → List ℕ
  pub decode : List ℕ → String
  pub decode-encode : (s : String) → decode (encode s) ≡ s
  pub encode-append : (s t : String) → encode (String.◌++◌ s t) ≡ encode s ++ encode t
  pub encode-ascii : (s : String) → All (λ c. c < 128) (codes s) → encode s ≡ codes s
