-- ===== src/Dates/Moving.antt =====
-- Moving a date by days and by months.
use ledgerly_app.Base.{ℕ, zero, suc, ◌+◌, ◌≡◌, ap, ◌∙◌, some, Text, arith}
use ledgerly_app.Base.Integers.{ℤ, pos, neg, shift}
use ledgerly_app.Dates.Reading.{HasFourDigits, date_only_to_utc_date-from}
use ledgerly_app.Dates.DateOnly.{
  map_some, date_only_from_utc_date, date_only_to_utc_date, add_date_only_days,
}

-- The date is the day of a number, and is printed with a year of four digits.
abbrev pub IsDateOf : Text → ℕ → Type 0
IsDateOf value n = date_only_to_utc_date value ≡ some n

-- Adding days to a date adds them to the number of its day.
pub add_date_only_days-IsDateOf :
    (value : Text) (n : ℕ) (days : ℤ)
    → IsDateOf value n
    → HasFourDigits (shift n days)
    → (moved : Text) × (add_date_only_days value days ≡ some moved) × IsDateOf moved (shift n days)
unfolding add_date_only_days
add_date_only_days-IsDateOf value n days h range = (
  date_only_from_utc_date (shift n days),
  ap (map_some (λ date. date_only_from_utc_date (shift date days))) h,
  date_only_to_utc_date-from (shift n days) range,
)

shift-neg : (n k : ℕ) → shift (n + k) (neg k) ≡ n
shift-neg n zero = omega arith
shift-neg n (suc k) = omega arith

-- Days that are added and taken away again lead back to the day, and to the day's own text.
pub add_date_only_days-back :
    (n k : ℕ)
    → HasFourDigits n
    → HasFourDigits (n + k)
    → (moved : Text) × (add_date_only_days (date_only_from_utc_date n) (pos k) ≡ some moved)
      × (add_date_only_days moved (neg k) ≡ some (date_only_from_utc_date n))
unfolding add_date_only_days
add_date_only_days-back n k h range = (
  date_only_from_utc_date (n + k),
  ap (map_some (λ date. date_only_from_utc_date (date + k))) (date_only_to_utc_date-from n h),
  ap (map_some (λ date. date_only_from_utc_date (shift date (neg k))))
        (date_only_to_utc_date-from (n + k) range)
      ∙ ap (λ m. some (date_only_from_utc_date m)) (shift-neg n k),
)
