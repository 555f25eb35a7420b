-- ===== src/Periods/Windows.antt =====
-- The first and last day of a period.
use ledgerly_app.Base.{
  ℕ, suc, ◌+◌, ◌-◌, ◌*◌, ◌%◌, ◌/◌, min, ◌≤◌, ◌<◌, ◌≡◌, sym, ap, ◌∙◌, some, Text, arith, inl, inr,
}
use ledgerly_app.Base.Integers.{ℤ, pos, neg, shift}
use ledgerly_app.Dates.Days.{Day, day_of, days_in_year, month_lengths, length_of, number_of, span}
use ledgerly_app.Dates.Scan.{lt_or_le, all_months, zero_add}
use ledgerly_app.Dates.Inverse.{number, day_of-IsDay, number-day_of}
use ledgerly_app.Dates.DateOnly.{
  map_some, add_months, date_only_from_utc_date, add_date_only_days, add_date_only_months,
}
use ledgerly_app.Dates.Months.{
  span-suc, days_before-suc, length_of-positive, carried_to, add_months-day_of,
}
use ledgerly_app.Dates.Reading.{date_only_to_utc_date-from, HasFourDigits}
use ledgerly_app.Dates.Moving.{IsDateOf}
use ledgerly_app.Dates.Grid.{
  month_start, month_start-day_of, start-printed, add_printed, then_with-some,
}
use ledgerly_app.Periods.{end_of_date_only_month}

abbrev printed : ℕ → Text
printed n = date_only_from_utc_date n

-- How many days the month of a day has.
abbrev pub month_days : ℕ → ℕ
month_days n = length_of (month_lengths (day_of n).year) (day_of n).month

pub added :
    (value : Text) (n : ℕ) (days : ℤ)
    → IsDateOf value n
    → add_date_only_days value days ≡ some (date_only_from_utc_date (shift n days))
unfolding add_date_only_days
added value n days h = ap (map_some (λ date. date_only_from_utc_date (shift date days))) h

-- A day lies in its month.
pub in_month : (n : ℕ) → (month_start n ≤ n) × (n < month_start n + month_days n)
unfolding number_of
in_month n =
    let real = day_of-IsDay n in
    let back = number-day_of n in
    (omega (arith, real.date_positive), omega (arith, real.date_positive, real.date_le))

first_of_next :
    (year month : ℕ)
    → number_of year (suc month) 1 ≡ number_of year month 1 + length_of (month_lengths year) month
unfolding number_of
first_of_next year month =
    let before = days_before-suc (month_lengths year) month in
    ap (λ n. span 0 year + n + 1 - 1) before ∙ omega arith

first_of_year :
    (year : ℕ) → number_of (suc year) 0 1 ≡ number_of year 11 1 + length_of (month_lengths year) 11
unfolding number_of
first_of_year year =
    let year_end = span-suc 0 year in
    let same = ap days_in_year (zero_add year) in
    let months = days_before-suc (month_lengths year) 11 in
    let whole = all_months year in omega arith

-- The first of the next month.
next_month :
    (year month : ℕ)
    → month < 12
    → number_of ((year * 12 + month + 1) / 12) ((year * 12 + month + 1) % 12) 1
      ≡ number_of year month 1 + length_of (month_lengths year) month
next_month year month h = elim (lt_or_le (suc month) 12) [
  | inl lt ↦
      carried_to (year * 12 + month + 1) year (suc month) 1 (omega arith) lt
      ∙ first_of_next year month
  | inr le ↦
      let last : month ≡ 11 = omega arith in
      carried_to (year * 12 + month + 1) (suc year) 0 1 (omega arith) (omega arith)
      ∙ first_of_year year
      ∙ ap (λ m. number_of year m 1 + length_of (month_lengths year) m) (sym last)
]

abbrev reached : Day → ℕ
reached day = day.year * 12 + day.month + 1

abbrev next_number : Day → ℕ
next_number day =
    number_of (reached day / 12) (reached day % 12)
      (min day.date (length_of (month_lengths (reached day / 12)) (reached day % 12)))

one_kept : (day : Day) → min 1 (length_of (month_lengths (reached day / 12)) (reached day % 12)) ≡ 1
one_kept day = omega (arith, length_of-positive (reached day / 12) (reached day % 12) (omega arith))

-- A month after the first of a month is the first of the next one.
add_months-month_start :
    (n : ℕ)
    → 100 ≤ (day_of n).year
    → add_months (month_start n) (pos 1) ≡ month_start n + month_days n
add_months-month_start n late =
    let start = month_start n in
    let day = day_of n in
    let first = month_start-day_of n in
    let year : (day_of start).year ≡ day.year = ap (λ d. d.year) first in
    sym (number-day_of (add_months start (pos 1)))
    ∙ ap number (add_months-day_of start (pos 1) (omega arith))
    ∙ ap next_number first
    ∙ ap (number_of (reached day / 12) (reached day % 12)) (one_kept day)
    ∙ next_month day.year day.month (day_of-IsDay n).month_lt

-- The end of the month of a date.
pub end-printed :
    (value : Text) (n : ℕ)
    → IsDateOf value n
    → 100 ≤ (day_of n).year
    → HasFourDigits (month_start n)
    → HasFourDigits (month_start n + month_days n)
    → end_of_date_only_month value
      ≡ some (date_only_from_utc_date (month_start n + month_days n - 1))
unfolding end_of_date_only_month add_date_only_months
end-printed value n h late start_in next_in =
    then_with-some _ (start-printed value n h)
    ∙ then_with-some _ (
        ap (map_some (λ date. date_only_from_utc_date (add_months date (pos 1))))
          (date_only_to_utc_date-from (month_start n) start_in))
    ∙ ap (λ e. add_date_only_days (date_only_from_utc_date e) (neg 1))
        (add_months-month_start n late)
    ∙ add_printed (month_start n + month_days n) (neg 1) next_in
