-- ===== src/Session/Digest.antt =====
-- A PIN is accepted exactly if its digest is the one that is kept.
use Prim.Native.Nat.{bit_xor}
use ledgerly_app.Base.{
  ℕ, zero, suc, max, ◌≡◌, ◌↔◌, refl, ap₂, true, [], ◌∷◌, Text, arith, nat_eq, nat_beq_iff, length,
  map, lower_unit, List,
}
use ledgerly_app.Base.Bits.{bit_or-zero, bit_xor-zero_iff}
use ledgerly_app.Session.Pins.{
  to_hex, is_pin, is_digest, differences, start_difference, same_digest, verify_device_pin, unit_of,
  behind,
}

-- A difference once found stays.
differences-start : (n d : ℕ) (actual expected : Text) → differences n d actual expected ≡ 0 → d ≡ 0
unfolding differences
differences-start zero d actual expected h = h
differences-start (suc n) d actual expected h =
    (bit_or-zero d (bit_xor (unit_of actual) (unit_of expected)) (differences-start n _ _ _ h)).0

differences-same :
    (n d : ℕ) (actual expected : Text)
    → length actual ≡ n
    → length expected ≡ n
    → differences n d actual expected ≡ 0
    → actual ≡ expected
unfolding differences
differences-same zero d [] [] a e h = refl
differences-same zero d [] (y ∷ ys) a e h = absurd (omega arith)
differences-same zero d (x ∷ xs) ys a e h = absurd (omega arith)
differences-same (suc n) d [] ys a e h = absurd (omega arith)
differences-same (suc n) d (x ∷ xs) [] a e h = absurd (omega arith)
differences-same (suc n) d (x ∷ xs) (y ∷ ys) a e h =
    let here = (bit_or-zero d (bit_xor x y) (differences-start n _ xs ys h)).1 in
    ap₂ ◌∷◌ ((bit_xor-zero_iff x y).0 here)
      (differences-same n _ xs ys (omega arith) (omega arith) h)

differences_self : (n : ℕ) (s : Text) → differences n 0 s s ≡ 0
unfolding differences
differences_self zero s = refl
differences_self (suc n) s =
    rw ((bit_xor-zero_iff (unit_of s) (unit_of s)).1 refl) (differences_self n (behind s))

start_difference-zero : (s t : Text) → start_difference s t ≡ 0 → length s ≡ length t
start_difference-zero s t h = ground (arith, nat_beq_iff (length s) (length t))

start_difference_self : (s : Text) → start_difference s s ≡ 0
start_difference_self s = ground (arith, nat_beq_iff (length s) (length s))

same_digest-true : (s t : Text) → same_digest s t ≡ true → s ≡ t
unfolding same_digest
same_digest-true s t h =
    let none_differ =
      (nat_beq_iff (differences (max (length s) (length t)) (start_difference s t) s t) 0).0 h in
    let as_long =
      start_difference-zero s t (differences-start (max (length s) (length t)) _ s t none_differ) in
    differences-same (max (length s) (length t)) (start_difference s t) s t (omega arith)
      (omega arith) none_differ

same_digest_self : (s : Text) → same_digest s s ≡ true
unfolding same_digest
same_digest_self s =
    (nat_beq_iff _ 0).1
      (rw (start_difference_self s) (differences_self (max (length s) (length s)) s))

-- The comparison, which looks at every code unit, finds out whether two texts are the same.
pub same_digest_iff :
    (actual expected : Text) → (same_digest actual expected ≡ true) ↔ (actual ≡ expected)
unfolding same_digest
same_digest_iff s t = (λ h. same_digest-true s t h, λ e. rw e (same_digest_self t))

-- What `verifyDevicePin` accepts: a PIN whose digest is the kept one, in lower case.
pub verify_device_pin_iff :
    (sha256 : Text → List ℕ) (pin digest : Text)
    → (verify_device_pin sha256 pin digest ≡ true) ↔ (
        (is_pin pin ≡ true)
        × (is_digest digest ≡ true)
        × (to_hex (sha256 pin) ≡ map lower_unit digest))
unfolding verify_device_pin
verify_device_pin_iff sha256 pin digest =
    ground (arith, same_digest_iff (to_hex (sha256 pin)) (map lower_unit digest))
