-- ===== src/Base/Bits.antt =====
-- When an or and an exclusive or of numbers are zero.
use Prim.Native.Nat.{
  ℕ, zero, suc, ◌/◌, ◌%◌, ◌≤◌, max, bit_or, bit_xor, digits, differ, bit_or-bitwise,
  bit_xor-bitwise,
}
use mathlib.Core.Path.{◌≡◌, refl, sym, ◌∙◌}
use mathlib.Core.Logic.{◌↔◌}
use native.Mathlib.Omega.{arith}

differ-zero : (x y : ℕ) → differ x y ≡ 0 → x ≡ y
differ-zero zero y h = sym h
differ-zero (suc x) zero h = h
differ-zero (suc x) (suc y) h = omega (arith, differ-zero x y h)

differ_self : (x : ℕ) → differ x x ≡ 0
differ_self zero = refl
differ_self (suc x) = differ_self x

abbrev xor_digits : ℕ → ℕ → ℕ → ℕ
xor_digits n a b = digits (λ b. b) differ n a b

xor_digits-zero : (n a b : ℕ) → a ≤ n → xor_digits n a b ≡ 0 → a ≡ b
xor_digits-zero zero zero b p h = sym h
xor_digits-zero zero (suc a) b p h = absurd (omega arith)
xor_digits-zero (suc n) zero b p h = sym h
xor_digits-zero (suc n) (suc a) b p h =
    let lowest = differ-zero (suc a % 2) (b % 2) (omega arith) in
    let rest = xor_digits-zero n (suc a / 2) (b / 2) (omega arith) (omega arith) in omega arith

xor_digits_self : (n a : ℕ) → a ≤ n → xor_digits n a a ≡ 0
xor_digits_self zero zero p = refl
xor_digits_self zero (suc a) p = absurd (omega arith)
xor_digits_self (suc n) zero p = refl
xor_digits_self (suc n) (suc a) p =
    omega (arith, differ_self (suc a % 2), xor_digits_self n (suc a / 2) (omega arith))

pub bit_xor-zero_iff : (a b : ℕ) → (bit_xor a b ≡ 0) ↔ (a ≡ b)
bit_xor-zero_iff a b = (
  λ h. xor_digits-zero a a b (omega arith) (sym (bit_xor-bitwise a b) ∙ h),
  λ e. rw (sym e) (bit_xor-bitwise a a ∙ xor_digits_self a a (omega arith)),
)

abbrev or_digits : ℕ → ℕ → ℕ → ℕ
or_digits n a b = digits (λ b. b) max n a b

or_digits-zero : (n a b : ℕ) → a ≤ n → or_digits n a b ≡ 0 → (a ≡ 0) × (b ≡ 0)
or_digits-zero zero zero b p h = (refl, h)
or_digits-zero zero (suc a) b p h = absurd (omega arith)
or_digits-zero (suc n) zero b p h = (refl, h)
or_digits-zero (suc n) (suc a) b p h =
    let rest = or_digits-zero n (suc a / 2) (b / 2) (omega arith) (omega arith) in
    absurd (omega arith)

pub bit_or-zero : (a b : ℕ) → bit_or a b ≡ 0 → (a ≡ 0) × (b ≡ 0)
bit_or-zero a b h = or_digits-zero a a b (omega arith) (sym (bit_or-bitwise a b) ∙ h)
