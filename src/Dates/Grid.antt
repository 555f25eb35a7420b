-- ===== src/Dates/Grid.antt =====
-- The days that the calendar shows, and the ends of a week.
use ledgerly_app.Base.{
  ℕ, zero, suc, ◌+◌, ◌-◌, ◌≤◌, ◌<◌, ◌≡◌, refl, sym, ap, ◌∙◌, Option, some, List, [], ◌∷◌, Text,
  arith,
}
use ledgerly_app.Base.Integers.{ℤ, pos, neg, shift}
use ledgerly_app.Dates.Days.{Day, day_of, number_of, weekday_of}
use ledgerly_app.Dates.Scan.{add_zero}
use ledgerly_app.Dates.Inverse.{day_of-IsDay, day_of-number}
use ledgerly_app.Dates.DateOnly.{
  map_some, date_only_from_parts, date_only_from_utc_date, add_date_only_days,
  start_of_date_only_month, date_only_weekday,
}
use ledgerly_app.Dates.Months.{length_of-positive}
use ledgerly_app.Dates.Reading.{date_only_to_utc_date-from, HasFourDigits}
use ledgerly_app.Dates.Range.{number-HasFourDigits}
use ledgerly_app.Dates.Moving.{IsDateOf}
use ledgerly_app.Dates.Picker.{then_with, days_from, get_visible_calendar_days}

-- `count` days in a row, from `start` on.
abbrev pub printed_days : ℕ → ℕ → List Text
printed_days start zero = []
printed_days start (suc count) = date_only_from_utc_date start ∷ printed_days (suc start) count

pub add_printed :
    (n : ℕ) (days : ℤ)
    → HasFourDigits n
    → add_date_only_days (date_only_from_utc_date n) days
      ≡ some (date_only_from_utc_date (shift n days))
unfolding add_date_only_days
add_printed n days h =
    ap (map_some (λ date. date_only_from_utc_date (shift date days)))
      (date_only_to_utc_date-from n h)

days_from-printed_days :
    (n count index : ℕ)
    → HasFourDigits n
    → days_from (date_only_from_utc_date n) count index ≡ some (printed_days (n + index) count)
unfolding days_from
days_from-printed_days n zero index h = refl
days_from-printed_days n (suc count) index h =
    let added = add_printed n (pos index) h in
    let rest = days_from-printed_days n count (suc index) h in
    let next : n + suc index ≡ suc (n + index) = omega arith in rw (added, rest, next) refl

-- The first of the month of a day.
abbrev pub month_start : ℕ → ℕ
month_start n = number_of (day_of n).year (day_of n).month 1

pub month_start-day_of :
    (n : ℕ)
    → day_of (month_start n) ≡ record { year = (day_of n).year; month = (day_of n).month; date = 1 }
month_start-day_of n =
    let first : Day = record { year = (day_of n).year; month = (day_of n).month; date = 1 } in
    let real = day_of-IsDay n in
    day_of-number first (record {
      month_lt = real.month_lt;
      date_positive = omega arith;
      date_le = length_of-positive (day_of n).year (day_of n).month real.month_lt;
    })

pub start-printed :
    (value : Text) (n : ℕ)
    → IsDateOf value n
    → start_of_date_only_month value ≡ some (date_only_from_utc_date (month_start n))
unfolding start_of_date_only_month date_only_from_utc_date
start-printed value n h =
    ap (map_some (λ date. date_only_from_parts (day_of date).year (suc (day_of date).month) 1)) h
    ∙ sym (
        ap (λ day. some (date_only_from_parts day.year (suc day.month) day.date))
          (month_start-day_of n))

pub weekday-printed :
    (n : ℕ) → HasFourDigits n → date_only_weekday (date_only_from_utc_date n) ≡ some (weekday_of n)
unfolding date_only_weekday
weekday-printed n h = ap (map_some weekday_of) (date_only_to_utc_date-from n h)

pub shift_back : (n k : ℕ) → shift n (neg k) ≡ n - k
shift_back n zero = omega arith
shift_back n (suc k) = refl

pub weekday_of-lt : (n : ℕ) → weekday_of n < 7
unfolding weekday_of
weekday_of-lt n = omega arith

sunday_before-weekday : (n : ℕ) → 7 ≤ n → weekday_of (n - weekday_of n) ≡ 0
unfolding weekday_of
sunday_before-weekday n h = omega arith

pub then_with-some :
    {A B : Type 0} {o : Option A} {a : A} (f : A → Option B) → o ≡ some a → then_with o f ≡ f a
then_with-some f e = ap (λ o. then_with o f) e

-- The days that are shown, from the Sunday before the first of the month.
visible-printed :
    (value : Text) (n first : ℕ)
    → IsDateOf value n
    → HasFourDigits (month_start n)
    → HasFourDigits first
    → shift (month_start n) (neg (weekday_of (month_start n))) ≡ first
    → get_visible_calendar_days value ≡ some (printed_days first 42)
unfolding get_visible_calendar_days
visible-printed value n first h start_in first_in back =
    then_with-some _ (start-printed value n h)
    ∙ then_with-some _ (weekday-printed (month_start n) start_in)
    ∙ then_with-some _ (add_printed (month_start n) (neg (weekday_of (month_start n))) start_in)
    ∙ ap (λ k. days_from (date_only_from_utc_date k) 42 0) back
    ∙ days_from-printed_days first 42 0 first_in
    ∙ ap (λ k. some (printed_days k 42)) (add_zero first)

-- The calendar of a month shows 42 days in a row, from a Sunday on that is one of the seven days up to
-- the first of the month, where all of these days have a year of four digits.
pub get_visible_calendar_days-printed :
    (value : Text) (n : ℕ)
    → IsDateOf value n
    → 365249 ≤ month_start n
    → month_start n + 42 ≤ 3652425
    → (first : ℕ) × (get_visible_calendar_days value ≡ some (printed_days first 42))
      × (weekday_of first ≡ 0)
      × (first ≤ month_start n)
      × (month_start n < first + 7)
get_visible_calendar_days-printed value n h low high =
    let start = month_start n in
    let weekday = weekday_of start in
    let first = start - weekday in
    let few : weekday < 7 = weekday_of-lt start in
    let start_in : HasFourDigits start = number-HasFourDigits start (omega arith) (omega arith) in
    let first_in : HasFourDigits first = number-HasFourDigits first (omega arith) (omega arith) in
    let back : shift start (neg weekday) ≡ first = shift_back start weekday in
    (
      first,
      visible-printed value n first h start_in first_in back,
      sunday_before-weekday start (omega arith),
      omega arith,
      omega arith,
    )
