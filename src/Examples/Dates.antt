-- ===== src/Examples/Dates.antt =====
-- The end of a leap year's February, and the calendar of a November.
use ledgerly_app.Base.{
  ℕ, ◌≡◌, ◌↔◌, refl, arith, false, none, some, Text, codes, min, ◌<◌, ◌≤◌, ◌+◌, ◌/◌, ◌%◌,
}
use ledgerly_app.Base.Decimal.{decimal, decimal_fuel, digits_value, pad_start}
use ledgerly_app.Base.Integers.{pos, neg, shift}
use ledgerly_app.Dates.Days.{
  number_of, date_utc, day_of, day_in, year_of, month_of, span, weekday_of, month_lengths,
  length_of,
}
use ledgerly_app.Dates.DateOnly.{
  Parts, date_fields, is_real, keep_real, parts_for, pad, date_only_from_parts,
  date_only_from_utc_date, date_only_to_utc_date, is_date_only, add_date_only_days,
  add_date_only_months, add_months, first_of_month, last_day, start_of_date_only_month,
}
use ledgerly_app.Dates.Real.{IsDate}
use ledgerly_app.Dates.Texts.{written}
use ledgerly_app.Dates.Reading.{HasFourDigits, parts_for_iff, date_only_to_utc_date-from}
use ledgerly_app.Dates.Moving.{IsDateOf, add_date_only_days-IsDateOf}
use ledgerly_app.Dates.Months.{month_after, add_months-day_of}
use ledgerly_app.Dates.Range.{number-HasFourDigits}
use ledgerly_app.Dates.Picker.{
  Calendar, arrow_right, is_outside_range, is_below, is_above, clamp_initial_date, on_day_key_down,
  get_visible_calendar_days,
}
use ledgerly_app.Dates.Grid.{printed_days, month_start, get_visible_calendar_days-printed}
use ledgerly_app.Dates.Focus.{IsWithin, on_day_key_down-IsWithin, clamp_initial_date-within}

abbrev leap_day : Text
leap_day = codes "2024-02-29"

abbrev leap_parts : Parts
leap_parts = record { year = 2024; month = 2; day = 29 }

-- The number of the leap day.
abbrev leap_number : ℕ
leap_number = 739310

leap_day-IsDateOf : IsDateOf leap_day leap_number
unfolding date_only_to_utc_date parts_for date_fields keep_real is_real date_utc number_of day_of
    day_in year_of month_of span digits_value
leap_day-IsDateOf = refl

early_year : start_of_date_only_month (codes "0999-05-10") ≡ some (codes "999-05-01")
unfolding start_of_date_only_month date_only_to_utc_date parts_for date_fields keep_real is_real
    date_utc number_of day_of day_in year_of month_of span digits_value date_only_from_parts pad
    pad_start decimal decimal_fuel
early_year = refl

month_cut : add_date_only_months (codes "2024-01-31") (pos 1) ≡ some leap_day
unfolding add_date_only_months add_months first_of_month last_day date_only_from_utc_date
    date_only_to_utc_date parts_for date_fields keep_real is_real date_utc number_of day_of day_in
    year_of month_of span digits_value date_only_from_parts pad pad_start decimal decimal_fuel
month_cut = refl

parts_for_iff_example :
    (parts_for leap_day ≡ some leap_parts)
    ↔ (IsDate leap_parts × (leap_parts.year < 10000) × (leap_day ≡ written leap_parts))
parts_for_iff_example = parts_for_iff leap_day leap_parts

leap_number-HasFourDigits : HasFourDigits leap_number
leap_number-HasFourDigits = number-HasFourDigits leap_number (omega arith) (omega arith)

date_only_to_utc_date-from_example :
    date_only_to_utc_date (date_only_from_utc_date leap_number) ≡ some leap_number
date_only_to_utc_date-from_example =
    date_only_to_utc_date-from leap_number leap_number-HasFourDigits

add_date_only_days-IsDateOf_example :
    (moved : Text) × (add_date_only_days leap_day (neg 7) ≡ some moved)
    × IsDateOf moved (shift leap_number (neg 7))
add_date_only_days-IsDateOf_example =
    add_date_only_days-IsDateOf leap_day leap_number (neg 7) leap_day-IsDateOf
      (number-HasFourDigits 739303 (omega arith) (omega arith))

add_months-day_of_example : day_of (add_months leap_number (pos 12)) ≡ record {
  year = month_after leap_number (pos 12) / 12;
  month = month_after leap_number (pos 12) % 12;
  date = min (day_of leap_number).date (
      length_of
        (month_lengths (month_after leap_number (pos 12) / 12))
        (month_after leap_number (pos 12) % 12));
}
unfolding day_of day_in year_of month_of
add_months-day_of_example = add_months-day_of leap_number (pos 12) (omega arith)

get_visible_calendar_days-printed_example :
    (first : ℕ) × (get_visible_calendar_days leap_day ≡ some (printed_days first 42))
    × (weekday_of first ≡ 0)
    × (first ≤ month_start leap_number)
    × (month_start leap_number < first + 7)
unfolding day_of day_in year_of month_of number_of span
get_visible_calendar_days-printed_example =
    get_visible_calendar_days-printed leap_day leap_number leap_day-IsDateOf (omega arith)
      (omega arith)

abbrev calendar : Calendar
calendar = record {
  min = none;
  max = some (codes "2024-02-29");
  visible_month = codes "2024-02-01";
  focused_date = codes "2024-02-29";
  chosen = none;
}

calendar-IsWithin : IsWithin calendar
unfolding is_outside_range is_below is_above is_date_only
calendar-IsWithin = record { focused = refl; picked = λ value e. ground arith }

-- The day after the last one is not focused.
on_day_key_down-IsWithin_example : IsWithin calendar
unfolding on_day_key_down
on_day_key_down-IsWithin_example =
    on_day_key_down-IsWithin arrow_right (codes "2024-02-29") calendar calendar calendar-IsWithin
      refl

clamp_initial_date-within_example :
    is_outside_range
      (clamp_initial_date leap_day (codes "2025-01-01") none (some leap_day))
      none
      (some leap_day)
    ≡ false
unfolding is_below
clamp_initial_date-within_example =
    clamp_initial_date-within leap_day (codes "2025-01-01") none (some leap_day) (λ e. refl)
