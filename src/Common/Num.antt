-- ===== src/Common/Num.antt =====
-- JavaScript numbers, as far as the program looks at them: NaN, the infinities and the finite
-- ones. A finite number is an integer count of the smallest unit in use (10^-7 for amounts, 1 for
-- pages and dates); rounding is not modelled, and -0 is 0.
use stellar_tip_api.Common.Tests.{ltb, eqb, if◌then◌else◌}
use Prim.Native.Nat.{ℕ, zero, suc, ◌+◌, ◌*◌, ◌/◌}
use mathlib.Core.Bool.{Bool, true, false, ◌||◌}
use mathlib.Core.Path.{◌≡◌}
use native.Mathlib.Omega.{arith}

-- `negsuc n` is -(n + 1).
pub data ℤ : Type 0 where
  pos : ℕ → ℤ
  negsuc : ℕ → ℤ

pub data Num : Type 0 where
  nan : Num
  pos_inf : Num
  neg_inf : Num
  fin : ℤ → Num

abbrev pub ltb_ℤ : ℤ → ℤ → Bool
ltb_ℤ (pos a) (pos b) = ltb a b
ltb_ℤ (pos a) (negsuc b) = false
ltb_ℤ (negsuc a) (pos b) = true
ltb_ℤ (negsuc a) (negsuc b) = ltb b a

abbrev pub eqb_ℤ : ℤ → ℤ → Bool
eqb_ℤ (pos a) (pos b) = eqb a b
eqb_ℤ (negsuc a) (negsuc b) = eqb a b
eqb_ℤ _ _ = false

-- `a < b`; NaN is below nothing and above nothing.
abbrev pub lt_num : Num → Num → Bool
lt_num (fin a) (fin b) = ltb_ℤ a b
lt_num (fin a) pos_inf = true
lt_num neg_inf (fin b) = true
lt_num neg_inf pos_inf = true
lt_num _ _ = false

-- `a === b`
abbrev pub eq_num : Num → Num → Bool
eq_num (fin a) (fin b) = eqb_ℤ a b
eq_num pos_inf pos_inf = true
eq_num neg_inf neg_inf = true
eq_num _ _ = false

-- `a <= b`
abbrev pub le_num : Num → Num → Bool
le_num a b = lt_num a b || eq_num a b

abbrev pub num : ℕ → Num
num n = fin (pos n)

abbrev pub is_finite : Num → Bool
is_finite (fin a) = true
is_finite _ = false

-- `Boolean(n)`
abbrev pub num_truthy : Num → Bool
num_truthy nan = false
num_truthy (fin (pos zero)) = false
num_truthy _ = true

-- `n || d`
abbrev pub num_or : Num → Num → Num
num_or n d = if num_truthy n then n else d

abbrev pub negate_ℤ : ℕ → ℤ
negate_ℤ zero = pos zero
negate_ℤ (suc n) = negsuc n

abbrev pub mul_ℤ : ℤ → ℤ → ℤ
mul_ℤ (pos a) (pos b) = pos (a * b)
mul_ℤ (pos a) (negsuc b) = negate_ℤ (a * suc b)
mul_ℤ (negsuc a) (pos b) = negate_ℤ (suc a * b)
mul_ℤ (negsuc a) (negsuc b) = pos (suc a * suc b)

abbrev pub negated : Num → Num
negated nan = nan
negated pos_inf = neg_inf
negated neg_inf = pos_inf
negated (fin (pos n)) = fin (negate_ℤ n)
negated (fin (negsuc n)) = num (suc n)

-- an infinity of the sign of `a`, and NaN for 0
abbrev pub infinite_like : ℤ → Num
infinite_like (pos zero) = nan
infinite_like (pos (suc n)) = pos_inf
infinite_like (negsuc n) = neg_inf

-- `a * b`
abbrev pub mul_num : Num → Num → Num
mul_num nan b = nan
mul_num pos_inf nan = nan
mul_num pos_inf pos_inf = pos_inf
mul_num pos_inf neg_inf = neg_inf
mul_num pos_inf (fin b) = infinite_like b
mul_num neg_inf nan = nan
mul_num neg_inf pos_inf = neg_inf
mul_num neg_inf neg_inf = pos_inf
mul_num neg_inf (fin b) = negated (infinite_like b)
mul_num (fin a) nan = nan
mul_num (fin a) pos_inf = infinite_like a
mul_num (fin a) neg_inf = negated (infinite_like a)
mul_num (fin a) (fin b) = fin (mul_ℤ a b)

-- `n - 1`
abbrev pub pred_num : Num → Num
pred_num (fin (pos zero)) = fin (negsuc zero)
pred_num (fin (pos (suc n))) = num n
pred_num (fin (negsuc n)) = fin (negsuc (suc n))
pred_num n = n

-- `Math.ceil(n / d)`
abbrev pub ceil_div : ℕ → Num → Num
ceil_div n nan = nan
ceil_div n pos_inf = num 0
ceil_div n neg_inf = num 0
ceil_div zero (fin (pos zero)) = nan
ceil_div (suc n) (fin (pos zero)) = pos_inf
ceil_div n (fin (pos (suc d))) = num ((n + d) / suc d)
ceil_div n (fin (negsuc d)) = fin (negate_ℤ (n / suc d))

-- A finite number above zero.
pub data IsPositive : Num → Type 0 where
  positive : (n : ℕ) → IsPositive (fin (pos (suc n)))

pub IsPositive-of_tests : (n : Num) → is_finite n ≡ true → le_num n (num 0) ≡ false → IsPositive n
IsPositive-of_tests (fin (pos zero)) h k = ground arith
IsPositive-of_tests (fin (pos (suc n))) h k = positive n
IsPositive-of_tests (fin (negsuc n)) h k = ground arith
IsPositive-of_tests nan h k = ground arith
IsPositive-of_tests pos_inf h k = ground arith
IsPositive-of_tests neg_inf h k = ground arith
