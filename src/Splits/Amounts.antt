-- ===== src/Splits/Amounts.antt =====
-- Reading an amount that was printed with two decimal places.
use ledgerly_app.Base.{
  ℕ, ◌/◌, ◌%◌, ◌≤◌, ◌<◌, ◌≡◌, refl, ◌∙◌, ap, true, false, some, [], ◌∷◌, ◌++◌, Text, arith, length,
  All-map, All-append, is_digit, is_space, append_assoc, append-nil,
}
use ledgerly_app.Base.Decimal.{
  digits_value, decimal, pad_start, digits_value-decimal, digits_value-pad_start, IsDigits,
  decimal-IsDigits, decimal-ne-nil, pad_start-IsDigits, length-pad_start, length-decimal-le_two,
}
use ledgerly_app.Base.Trimming.{IsSolid, trim_of_IsSolid}
use ledgerly_app.Splits.{
  split_share_minor_from_major, match_share, share_value, fraction, max_safe_integer,
}

-- An amount in minor units as the form shows it: major units, a point, two decimal places.
unfoldable pub print_major : ℕ → Text
print_major n = decimal (n / 100) ++ b'.' ∷ pad_start 2 (decimal (n % 100))

digit-IsSolid : (c : ℕ) → is_digit c ≡ true → is_space c ≡ false
digit-IsSolid c h = ground arith

print_major-IsSolid : (n : ℕ) → IsSolid (print_major n)
unfolding print_major
print_major-IsSolid n =
    All-append _ (decimal (n / 100)) _ (All-map digit-IsSolid _ (decimal-IsDigits (n / 100)))
      (refl, All-map digit-IsSolid _ (pad_start-IsDigits 2 _ (decimal-IsDigits (n % 100))))

fraction-two : (s : Text) → IsDigits s → length s ≡ 2 → fraction s ≡ some s
unfolding fraction
fraction-two [] h e = absurd (omega arith)
fraction-two (a ∷ []) h e = absurd (omega arith)
fraction-two (a ∷ b ∷ []) h e = rw (h.0, h.1.0)
fraction-two (a ∷ b ∷ c ∷ s) h e = absurd (omega arith)

match_share-after :
    (s major f : Text)
    → IsDigits s
    → fraction f ≡ some f
    → match_share major true (s ++ b'.' ∷ f) ≡ some (major ++ s, f)
unfolding match_share
match_share-after [] major f h e = rw (e, append-nil major)
match_share-after (c ∷ s) major f h e =
    rw h.0 (match_share-after s (major ++ c ∷ []) f h.1 e ∙ rw (append_assoc major (c ∷ []) s))

match_share-printed :
    (s f : Text)
    → IsDigits s
    → 0 < length s
    → fraction f ≡ some f
    → match_share [] false (s ++ b'.' ∷ f) ≡ some (s, f)
unfolding match_share
match_share-printed [] f h p e = absurd (omega arith)
match_share-printed (c ∷ s) f h p e = rw h.0 (match_share-after s (c ∷ []) f h.1 e)

-- A positive amount of minor units that is a safe integer is read back as itself from its printed
-- form.
pub split_share-print_major :
    (n : ℕ) → 0 < n → n ≤ max_safe_integer → split_share_minor_from_major (print_major n) ≡ some n
unfolding split_share_minor_from_major share_value print_major
split_share-print_major n p h =
    ap (λ s. share_value (match_share [] false s))
      (trim_of_IsSolid (print_major n) (print_major-IsSolid n))
    ∙ ap share_value matched
    ∙ ground (arith, whole, cents)
  where
    two : length (pad_start 2 (decimal (n % 100))) ≡ 2
    two = omega (arith, length-pad_start 2 (decimal (n % 100)), length-decimal-le_two (n % 100))

    matched :
        match_share [] false (decimal (n / 100) ++ b'.' ∷ pad_start 2 (decimal (n % 100)))
        ≡ some (decimal (n / 100), pad_start 2 (decimal (n % 100)))
    matched =
        match_share-printed (decimal (n / 100)) _ (decimal-IsDigits (n / 100))
          (decimal-ne-nil (n / 100))
          (fraction-two _ (pad_start-IsDigits 2 _ (decimal-IsDigits (n % 100))) two)

    whole : digits_value 0 (decimal (n / 100)) ≡ n / 100
    whole = digits_value-decimal (n / 100)

    cents : digits_value 0 (pad_start 2 (decimal (n % 100))) ≡ n % 100
    cents = digits_value-pad_start 2 _ ∙ digits_value-decimal (n % 100)
