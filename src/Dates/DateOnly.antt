-- ===== src/Dates/DateOnly.antt =====
-- web/src/lib/date-only.ts. A `Date` at UTC midnight is the number of its day. No call goes back by
-- more than a month, and a date that is read has a year from 100 on, so that no number is below 0.
use ledgerly_app.Base.{
  ℕ, suc, ◌+◌, ◌*◌, ◌/◌, ◌%◌, min, Bool, true, false, ◌&&◌, Option, none, some, [], ◌∷◌, ◌++◌, Text,
  codes, all, is_digit, ◌==◌, nat_eq, if◌then◌else◌,
}
use ledgerly_app.Base.Decimal.{decimal, digits_value, pad_start}
use ledgerly_app.Base.Integers.{ℤ, shift}
use ledgerly_app.Dates.Days.{Day, number_of, date_utc, day_of, weekday_of}

pub record Parts : Type 0 where
  pub year : ℕ
  pub month : ℕ
  pub day : ℕ

-- `DATE_ONLY_PATTERN.exec`, with the numbers of its groups.
unfoldable pub date_fields : Text → Option Parts
unfolding digits_value
date_fields (a ∷ b ∷ c ∷ d ∷ m ∷ e ∷ f ∷ n ∷ g ∷ h ∷ []) =
    if all is_digit (a ∷ b ∷ c ∷ d ∷ e ∷ f ∷ g ∷ h ∷ []) && m == b'-' && n == b'-'
    then some (record {
      year = digits_value 0 (a ∷ b ∷ c ∷ d ∷ []);
      month = digits_value 0 (e ∷ f ∷ []);
      day = digits_value 0 (g ∷ h ∷ []);
    })
    else none
date_fields _ = none

-- The calendar has the day: `Date.UTC` does not move it.
unfoldable pub is_real : Parts → Bool
unfolding day_of date_utc
is_real p =
    let found = day_of (date_utc p.year p.month p.day) in
    found.year == p.year && suc found.month == p.month && found.date == p.day

unfoldable pub keep_real : Option Parts → Option Parts
unfolding is_real
keep_real none = none
keep_real (some p) = if is_real p then some p else none

unfoldable pub parts_for : Text → Option Parts
unfolding date_fields keep_real
parts_for value = keep_real (date_fields value)

unfoldable pub pad : ℕ → Text
unfolding decimal pad_start
pad value = pad_start 2 (decimal value)

unfoldable pub date_only_from_parts : ℕ → ℕ → ℕ → Text
unfolding decimal pad
date_only_from_parts year month day = decimal year ++ codes "-" ++ pad month ++ codes "-" ++ pad day

unfoldable pub date_only_from_utc_date : ℕ → Text
unfolding day_of date_only_from_parts
date_only_from_utc_date date =
    let found = day_of date in date_only_from_parts found.year (suc found.month) found.date

abbrev pub is_some {ℓ} : {A : Type ℓ} → Option A → Bool
is_some none = false
is_some (some a) = true

-- A value that is no string is none.
unfoldable pub is_date_only : Option Text → Bool
unfolding parts_for
is_date_only none = false
is_date_only (some value) = is_some (parts_for value)

-- `now` is the day of the local calendar.
unfoldable pub today_date_only : Day → Text
unfolding date_only_from_parts
today_date_only now = date_only_from_parts now.year (suc now.month) now.date

module _ (parse : Text → Option ℕ) where
  unfoldable pub parsed_or : Option ℕ → Text → Text
  unfolding date_only_from_utc_date
  parsed_or none fallback = fallback
  parsed_or (some date) fallback = date_only_from_utc_date date

  -- `parse` is `new Date`: the day of an instant, none for an invalid date.
  unfoldable pub date_only_from_utc : Option Text → Text → Text
  unfolding is_date_only parsed_or
  date_only_from_utc none fallback = fallback
  date_only_from_utc (some []) fallback = fallback
  date_only_from_utc (some (c ∷ value)) fallback =
      if is_date_only (some (c ∷ value)) then c ∷ value else parsed_or (parse (c ∷ value)) fallback

abbrev pub map_some {ℓ κ} : {A : Type ℓ} {B : Type κ} → (A → B) → Option A → Option B
map_some f none = none
map_some f (some a) = some (f a)

-- None where a function throws its TypeError.
unfoldable pub to_utc_date_only : Text → Option Text
unfolding parts_for date_only_from_parts
to_utc_date_only value =
    map_some (λ p. date_only_from_parts p.year p.month p.day ++ codes "T00:00:00.000Z")
      (parts_for value)

unfoldable pub date_only_to_utc_date : Text → Option ℕ
unfolding parts_for date_utc
date_only_to_utc_date value = map_some (λ p. date_utc p.year p.month p.day) (parts_for value)

unfoldable pub add_date_only_days : Text → ℤ → Option Text
unfolding date_only_to_utc_date date_only_from_utc_date
add_date_only_days value days =
    map_some (λ date. date_only_from_utc_date (shift date days)) (date_only_to_utc_date value)

-- `setUTCDate(1)` and `setUTCMonth(getUTCMonth() + months)`.
unfoldable pub first_of_month : Day → ℤ → ℕ
unfolding number_of
first_of_month day months =
    let total = shift (day.year * 12 + day.month) months in number_of (total / 12) (total % 12) 1

-- `new Date(Date.UTC(year, month + 1, 0)).getUTCDate()`
unfoldable pub last_day : Day → ℕ
unfolding day_of date_utc
last_day day = (day_of (date_utc day.year (day.month + 2) 0)).date

-- A `Date` ends at 8.64e15 ms from 1970, in the year 275760; only a count of months or days that leads
-- there tells the two apart.
unfoldable pub add_months : ℕ → ℤ → ℕ
unfolding day_of first_of_month last_day number_of
add_months date months =
    let month = day_of (first_of_month (day_of date) months) in
    number_of month.year month.month (min (day_of date).date (last_day month))

unfoldable pub add_date_only_months : Text → ℤ → Option Text
unfolding add_months date_only_to_utc_date date_only_from_utc_date
add_date_only_months value months =
    map_some (λ date. date_only_from_utc_date (add_months date months))
      (date_only_to_utc_date value)

unfoldable pub start_of_date_only_month : Text → Option Text
unfolding date_only_to_utc_date date_only_from_parts day_of
start_of_date_only_month value =
    map_some (λ date. date_only_from_parts (day_of date).year (suc (day_of date).month) 1)
      (date_only_to_utc_date value)

unfoldable pub date_only_weekday : Text → Option ℕ
unfolding date_only_to_utc_date weekday_of
date_only_weekday value = map_some weekday_of (date_only_to_utc_date value)
