-- ===== src/Session/Hex.antt =====
-- The text of a digest has two lower-case hexadecimal digits for each byte.
use ledgerly_app.Base.{
  ℕ, ◌/◌, ◌%◌, ◌*◌, ◌<◌, ◌≡◌, refl, ◌∙◌, ap, sym, ap₂, true, List, [], ◌∷◌, ◌++◌, Text, All, all,
  map, length, ltb, nat_eq, arith, Bool-cases, inl, inr, lower_unit,
}
use ledgerly_app.Base.Decimal.{pad_start}
use ledgerly_app.Session.Pins.{is_hex, is_digest, hex_digit, byte_text, to_hex}

-- What a digest of SHA-256 is documented to be: 32 bytes.
abbrev pub IsSha256 : (Text → List ℕ) → Type 0
IsSha256 sha256 =
    (text : Text) → (length (sha256 text) ≡ 32) × All (λ byte. byte < 256) (sha256 text)

hex_digit-is_hex : (n : ℕ) → n < 16 → is_hex (hex_digit n) ≡ true
hex_digit-is_hex n h = ground arith

hex_digit-lower : (n : ℕ) → n < 16 → lower_unit (hex_digit n) ≡ hex_digit n
unfolding lower_unit
hex_digit-lower n h = ground arith

above : (n : ℕ) → ltb n 16 ≡ true → 0 ≡ n / 16
above n h = ground arith

within : (n : ℕ) → ltb n 16 ≡ true → n ≡ n % 16
within n h = ground arith

-- A byte as two digits.
two_digits :
    (byte : ℕ) → pad_start 2 (byte_text byte) ≡ hex_digit (byte / 16) ∷ hex_digit (byte % 16) ∷ []
unfolding pad_start
two_digits byte = elim (Bool-cases (ltb byte 16)) [
  | inl small ↦
      rw small (ap₂ (λ a b. hex_digit a ∷ hex_digit b ∷ []) (above byte small) (within byte small))
  | inr large ↦ rw large refl
]

to_hex-cons :
    (byte : ℕ) (bytes : List ℕ)
    → to_hex (byte ∷ bytes) ≡ hex_digit (byte / 16) ∷ hex_digit (byte % 16) ∷ to_hex bytes
unfolding to_hex
to_hex-cons byte bytes = ap (λ s. s ++ to_hex bytes) (two_digits byte)

length-to_hex : (bytes : List ℕ) → length (to_hex bytes) ≡ 2 * length bytes
unfolding to_hex
length-to_hex [] = refl
length-to_hex (byte ∷ bytes) =
    ap length (to_hex-cons byte bytes) ∙ omega (arith, length-to_hex bytes)

all_hex : (bytes : List ℕ) → All (λ byte. byte < 256) bytes → all is_hex (to_hex bytes) ≡ true
unfolding to_hex
all_hex [] h = refl
all_hex (byte ∷ bytes) h =
    ap (all is_hex) (to_hex-cons byte bytes)
    ∙ rw (
      hex_digit-is_hex (byte / 16) (omega (arith, h.0)),
      hex_digit-is_hex (byte % 16) (omega arith),
      all_hex bytes h.1,
    )

pub to_hex-is_digest :
    (bytes : List ℕ)
    → length bytes ≡ 32
    → All (λ byte. byte < 256) bytes
    → is_digest (to_hex bytes) ≡ true
to_hex-is_digest bytes l h = rw (length-to_hex bytes, l, all_hex bytes h) refl

pub to_hex-lower :
    (bytes : List ℕ) → All (λ byte. byte < 256) bytes → map lower_unit (to_hex bytes) ≡ to_hex bytes
unfolding to_hex
to_hex-lower [] h = refl
to_hex-lower (byte ∷ bytes) h =
    ap (map lower_unit) (to_hex-cons byte bytes)
    ∙ ap₂ ◌∷◌ (hex_digit-lower (byte / 16) (omega (arith, h.0)))
        (ap₂ ◌∷◌ (hex_digit-lower (byte % 16) (omega arith)) (to_hex-lower bytes h.1))
    ∙ sym (to_hex-cons byte bytes)
