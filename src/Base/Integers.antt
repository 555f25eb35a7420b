-- ===== src/Base/Integers.antt =====
-- Whole numbers with a sign, as the library has them, over the native numbers.
use Prim.Native.Nat.{ℕ, zero, suc, ◌+◌, ◌-◌}

pub data ℤ : Type 0 where
  pos : ℕ → ℤ
  negsuc : ℕ → ℤ

abbrev pub neg : ℕ → ℤ
neg zero = pos 0
neg (suc n) = negsuc n

-- `n + k`, where the sum is not below 0.
abbrev pub shift : ℕ → ℤ → ℕ
shift n (pos k) = n + k
shift n (negsuc k) = n - suc k
