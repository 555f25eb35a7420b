-- ===== src/Session/Pins.antt =====
-- web/src/platform/device-pin.ts. `sha256` gives the bytes of the digest of
-- a text, where `crypto.subtle.digest` gives one.
use Prim.Native.Nat.{bit_or, bit_xor}
use ledgerly_app.Base.{
  ltb, ◌+◌, ◌-◌, ◌/◌, ◌%◌, ◌++◌, ℕ, zero, suc, max, Bool, false, not, ◌&&◌, ◌||◌, Option, none,
  some, [], ◌∷◌, Text, codes, map, all, length, leb, is_digit, lower_unit, ◌==◌, nat_eq,
  if◌then◌else◌, List,
}
use ledgerly_app.Base.Decimal.{pad_start}

-- `/^\d{6}$/u.test(pin)`
abbrev pub is_pin : Text → Bool
is_pin pin = length pin == 6 && all is_digit pin

unfoldable pub validate_device_pin : Text → Option Text
validate_device_pin pin = if is_pin pin then none else some (codes "Use a 6 digit app PIN.")

abbrev pub is_hex : ℕ → Bool
is_hex c = is_digit c || leb b'a' c && leb c b'f' || leb b'A' c && leb c b'F'

-- `/^[0-9a-f]{64}$/i.test(digest)`
abbrev pub is_digest : Text → Bool
is_digest digest = length digest == 64 && all is_hex digest

-- `text.charCodeAt(index) || 0` for the head, and the text behind it.
abbrev pub unit_of : Text → ℕ
unit_of [] = 0
unit_of (c ∷ _) = c

abbrev pub behind : Text → Text
behind [] = []
behind (_ ∷ s) = s

-- The loop: `rounds` are left, and the two texts are those from `index` on.
unfoldable pub differences : ℕ → ℕ → Text → Text → ℕ
differences zero difference actual expected = difference
differences (suc rounds) difference actual expected =
    differences rounds (bit_or difference (bit_xor (unit_of actual) (unit_of expected)))
      (behind actual) (behind expected)

abbrev pub start_difference : Text → Text → ℕ
start_difference actual expected = if length actual == length expected then 0 else 1

unfoldable pub same_digest : Text → Text → Bool
unfolding differences
same_digest actual expected =
    differences (max (length actual) (length expected)) (start_difference actual expected) actual
      expected
    == 0

-- `byte.toString(16)`, of a byte.
abbrev pub hex_digit : ℕ → ℕ
hex_digit n = if ltb n 10 then b'0' + n else b'a' + (n - 10)

abbrev pub byte_text : ℕ → Text
byte_text byte =
    if ltb byte 16 then hex_digit byte ∷ [] else hex_digit (byte / 16) ∷ hex_digit (byte % 16) ∷ []

unfoldable pub to_hex : List ℕ → Text
unfolding pad_start
to_hex [] = []
to_hex (byte ∷ bytes) = pad_start 2 (byte_text byte) ++ to_hex bytes

module _ (sha256 : Text → List ℕ) where
  -- None where the source throws.
  unfoldable pub hash_device_pin : Text → Option Text
  unfolding to_hex
  hash_device_pin pin = if is_pin pin then some (to_hex (sha256 pin)) else none

  unfoldable pub verify_device_pin : Text → Text → Bool
  unfolding same_digest lower_unit to_hex
  verify_device_pin pin expected_digest =
      if not (is_pin pin) || not (is_digest expected_digest)
      then false
      else same_digest (to_hex (sha256 pin)) (map lower_unit expected_digest)
