-- ===== src/Base/Decimal.antt =====
-- Decimal notation: `String(n)` of a natural number, `Number(digits)`, and `padStart`.
use Prim.Native.Nat.{ℕ, zero, suc, ◌+◌, ◌-◌, ◌*◌, ◌/◌, ◌%◌, ◌≤◌, ◌<◌}
use mathlib.Core.Path.{◌≡◌, refl, ◌∙◌}
use mathlib.Core.Bool.{true}
use mathlib.Core.Logic.{inl, inr}
use mathlib.Core.List.{[], ◌∷◌, ◌++◌}
use native.Mathlib.Omega.{arith}
use ledgerly_app.Base.Tests.{if◌then◌else◌, ltb, Bool-cases}
use ledgerly_app.Base.Lists.{length, length-append, All, All-append, replicate, length-replicate}
use ledgerly_app.Base.Strings.{Text, is_digit}

-- The value of a text of digits, `acc` before it.
unfoldable pub digits_value : ℕ → Text → ℕ
digits_value acc [] = acc
digits_value acc (d ∷ s) = digits_value (acc * 10 + (d - b'0')) s

-- `String(n)`, on fuel; what a `let` binds is computed only if it is read.
unfoldable pub decimal_fuel : ℕ → ℕ → Text
decimal_fuel zero n = []
decimal_fuel (suc fuel) n =
    let more = decimal_fuel fuel (n / 10) in
    if ltb n 10 then (n + b'0') ∷ [] else more ++ (n % 10 + b'0') ∷ []

-- One round for each digit, and a number has no more digits than its own value and one.
unfoldable pub decimal : ℕ → Text
unfolding decimal_fuel
decimal n = decimal_fuel (suc n) n

-- `text.padStart(width, "0")`
unfoldable pub pad_start : ℕ → Text → Text
pad_start width s = replicate (width - length s) b'0' ++ s

pub digits_value-append :
    (acc : ℕ) (s t : Text) → digits_value acc (s ++ t) ≡ digits_value (digits_value acc s) t
unfolding digits_value
digits_value-append acc [] t = refl
digits_value-append acc (d ∷ s) t = digits_value-append (acc * 10 + (d - b'0')) s t

digits_value-one : (acc d : ℕ) → digits_value acc ((d + b'0') ∷ []) ≡ acc * 10 + d
unfolding digits_value
digits_value-one acc d = omega arith

digits_value-decimal_fuel : (fuel n : ℕ) → n < fuel → digits_value 0 (decimal_fuel fuel n) ≡ n
unfolding decimal_fuel
digits_value-decimal_fuel zero n h = absurd (omega arith)
digits_value-decimal_fuel (suc fuel) n h = elim (Bool-cases (ltb n 10)) [
  | inl small ↦ rw small (omega (arith, digits_value-one 0 n))
  | inr large ↦ rw large (
      digits_value-append 0 (decimal_fuel fuel (n / 10)) ((n % 10 + b'0') ∷ [])
      ∙ digits_value-one _ (n % 10)
      ∙ ground (arith, digits_value-decimal_fuel fuel (n / 10)))
]

-- Reading back what was printed.
pub digits_value-decimal : (n : ℕ) → digits_value 0 (decimal n) ≡ n
unfolding decimal
digits_value-decimal n = digits_value-decimal_fuel (suc n) n (omega arith)

abbrev pub IsDigits : Text → Type 0
IsDigits = All (λ c. is_digit c ≡ true)

digit_char : (d : ℕ) → d < 10 → is_digit (d + b'0') ≡ true
digit_char d h = ground arith

decimal_fuel-IsDigits : (fuel n : ℕ) → IsDigits (decimal_fuel fuel n)
unfolding decimal_fuel
decimal_fuel-IsDigits zero n = tt
decimal_fuel-IsDigits (suc fuel) n = elim (Bool-cases (ltb n 10)) [
  | inl small ↦ rw small (digit_char n (ground arith), tt)
  | inr large ↦ rw large (
      All-append _ (decimal_fuel fuel (n / 10)) _ (decimal_fuel-IsDigits fuel (n / 10))
        (digit_char (n % 10) (omega arith), tt))
]

pub decimal-IsDigits : (n : ℕ) → IsDigits (decimal n)
unfolding decimal
decimal-IsDigits n = decimal_fuel-IsDigits (suc n) n

pub decimal-ne-nil : (n : ℕ) → 0 < length (decimal n)
unfolding decimal decimal_fuel
decimal-ne-nil n = elim (Bool-cases (ltb n 10)) [
  | inl small ↦ rw small (omega arith)
  | inr large ↦
      rw large (omega (arith, length-append {0} (decimal_fuel n (n / 10)) ((n % 10 + b'0') ∷ [])))
]

-- Two digits are enough for a number below one hundred.
pub length-decimal-le_two : (n : ℕ) → n < 100 → length (decimal n) ≤ 2
unfolding decimal decimal_fuel
length-decimal-le_two zero h = omega arith
length-decimal-le_two (suc n) h = elim (Bool-cases (ltb (suc n) 10)) [
  | inl small ↦ rw small (omega arith)
  | inr large ↦ rw large (elim (Bool-cases (ltb (suc n / 10) 10)) [
    | inl two ↦ rw two (omega arith)
    | inr three ↦ ground arith
  ])
]

digits_value-zeros : (k : ℕ) → digits_value 0 (replicate k b'0') ≡ 0
unfolding digits_value
digits_value-zeros zero = refl
digits_value-zeros (suc k) = digits_value-zeros k

pub digits_value-pad_start :
    (width : ℕ) (s : Text) → digits_value 0 (pad_start width s) ≡ digits_value 0 s
unfolding pad_start
digits_value-pad_start width s =
    digits_value-append 0 (replicate (width - length s) b'0') s
    ∙ rw (digits_value-zeros (width - length s))

replicate-IsDigits : (k : ℕ) → IsDigits (replicate k b'0')
replicate-IsDigits zero = tt
replicate-IsDigits (suc k) = (refl, replicate-IsDigits k)

pub pad_start-IsDigits : (width : ℕ) (s : Text) → IsDigits s → IsDigits (pad_start width s)
unfolding pad_start
pad_start-IsDigits width s h =
    All-append _ (replicate (width - length s) b'0') s (replicate-IsDigits (width - length s)) h

pub length-pad_start :
    (width : ℕ) (s : Text) → length (pad_start width s) ≡ width - length s + length s
unfolding pad_start
length-pad_start width s = omega (
  arith,
  length-append {0} (replicate (width - length s) b'0') s,
  length-replicate {A = ℕ} (width - length s) b'0',
)
