-- ===== src/Base/Numbers.antt =====
-- A JavaScript number, as far as the client tells numbers apart: the safe integers, and the rest
-- (fractions, NaN, infinities and integers that are too large).
use Prim.Native.Nat.{ℕ, max}

pub data Number : Type 0 where
  -- A safe integer that is not negative, and `negative n`, which is -(n + 1).
  whole : ℕ → Number
  negative : ℕ → Number
  unsafe : Number

-- `Number.isSafeInteger(n) ? Math.max(low, n) : otherwise`, for a `low` that is not negative.
abbrev pub safe_at_least : ℕ → ℕ → Number → ℕ
safe_at_least low otherwise (whole n) = max low n
safe_at_least low otherwise (negative n) = low
safe_at_least low otherwise unsafe = otherwise
