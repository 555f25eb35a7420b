-- ===== src/Categories/Previews.antt =====
-- Transaction IDs as they are shown, and the category that a form falls back to.
use ledgerly_app.Base.{
  ◌≤◌, ◌≡◌, refl, ◌∙◌, true, Text, arith, Bool-cases, inl, inr, length, has, max, text_eq,
}
use ledgerly_app.Base.Decimal.{
  digits_value, decimal, digits_value-decimal, digits_value-pad_start, IsDigits, decimal-IsDigits,
  pad_start-IsDigits, length-pad_start,
}
use ledgerly_app.Base.Numbers.{Number}
use ledgerly_app.Categories.{
  TransactionCategoryMode, expense, income, transfer, split, categories_for_transaction_mode,
  normalized_digits, normalized_number, first_or_empty, transaction_sequence_preview,
  category_for_transaction_mode,
}

-- The preview of an ID is made of digits only, reads back as the number, and is as long as the
-- number or the wanted width, whichever is longer; the width is between 1 and 18.
pub sequence_preview_reads :
    (next_number minimum_digits : Number)
    → IsDigits (transaction_sequence_preview next_number minimum_digits)
      × (digits_value 0 (transaction_sequence_preview next_number minimum_digits)
          ≡ normalized_number next_number)
      × (length (transaction_sequence_preview next_number minimum_digits)
          ≡ max
              (normalized_digits minimum_digits)
              (length (decimal (normalized_number next_number))))
      × (1 ≤ normalized_digits minimum_digits)
      × (normalized_digits minimum_digits ≤ 18)
unfolding transaction_sequence_preview
sequence_preview_reads n d = (
  pad_start-IsDigits (normalized_digits d) _ (decimal-IsDigits (normalized_number n)),
  digits_value-pad_start (normalized_digits d) _ ∙ digits_value-decimal (normalized_number n),
  omega (arith, length-pad_start (normalized_digits d) (decimal (normalized_number n))),
  at_least_one d,
  omega arith,
)
  where
    at_least_one : (d : Number) → 1 ≤ normalized_digits d
    at_least_one (Number.whole n) = omega arith
    at_least_one (Number.negative n) = omega arith
    at_least_one Number.unsafe = omega arith

fallback_belongs :
    (mode : TransactionCategoryMode)
    → has
        (first_or_empty (categories_for_transaction_mode mode))
        (categories_for_transaction_mode mode)
      ≡ true
unfolding categories_for_transaction_mode has
fallback_belongs expense = refl
fallback_belongs income = refl
fallback_belongs transfer = refl
fallback_belongs split = refl

category_belongs :
    (mode : TransactionCategoryMode) (current : Text)
    → has (category_for_transaction_mode mode current) (categories_for_transaction_mode mode) ≡ true
unfolding category_for_transaction_mode
category_belongs mode current =
    elim (Bool-cases (has current (categories_for_transaction_mode mode))) [
      | inl known ↦ rw known known
      | inr unknown ↦ rw unknown (fallback_belongs mode)
    ]

category_kept :
    (mode : TransactionCategoryMode) (current : Text)
    → has current (categories_for_transaction_mode mode) ≡ true
    → category_for_transaction_mode mode current ≡ current
unfolding category_for_transaction_mode
category_kept mode current known = rw known

-- The category of a form always belongs to its mode, is the current one if that belongs to it, and
-- asking again changes nothing.
pub category_for_mode_belongs :
    (mode : TransactionCategoryMode) (current : Text)
    → (has (category_for_transaction_mode mode current) (categories_for_transaction_mode mode)
        ≡ true)
      × (has current (categories_for_transaction_mode mode) ≡ true
          → category_for_transaction_mode mode current ≡ current)
      × (category_for_transaction_mode mode (category_for_transaction_mode mode current)
          ≡ category_for_transaction_mode mode current)
category_for_mode_belongs mode current = (
  category_belongs mode current,
  category_kept mode current,
  category_kept mode _ (category_belongs mode current),
)
