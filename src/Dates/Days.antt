-- ===== src/Dates/Days.antt =====
-- `Date` on whole days of the UTC calendar: `Date.UTC` and the getters. A day is its number, counted
-- from 1 January of the year 0; a month counts from 0, as it does there.
use ledgerly_app.Base.{
  ℕ, zero, suc, ◌+◌, ◌-◌, ◌*◌, ◌/◌, ◌%◌, Bool, not, ◌&&◌, ◌||◌, List, [], ◌∷◌, ltb, leb, ◌==◌,
  nat_eq, if◌then◌else◌,
}

abbrev pub is_leap : ℕ → Bool
is_leap year = year % 4 == 0 && not (year % 100 == 0) || year % 400 == 0

abbrev pub days_in_year : ℕ → ℕ
days_in_year year = if is_leap year then 366 else 365

abbrev pub lengths_of_months : Bool → List ℕ
lengths_of_months leap =
    31 ∷ (if leap then 29 else 28) ∷ 31 ∷ 30 ∷ 31 ∷ 30 ∷ 31 ∷ 31 ∷ 30 ∷ 31 ∷ 30 ∷ 31 ∷ []

abbrev pub month_lengths : ℕ → List ℕ
month_lengths year = lengths_of_months (is_leap year)

-- The days of `years` years from `year` on.
unfoldable pub span : ℕ → ℕ → ℕ
span year zero = 0
span year (suc years) = days_in_year year + span (suc year) years

-- The days of the first `months` months.
abbrev pub days_before : List ℕ → ℕ → ℕ
days_before lengths zero = 0
days_before [] (suc months) = 0
days_before (n ∷ lengths) (suc months) = n + days_before lengths months

abbrev pub length_of : List ℕ → ℕ → ℕ
length_of [] month = 0
length_of (n ∷ lengths) zero = n
length_of (n ∷ lengths) (suc month) = length_of lengths month

-- A day of the calendar, its day of the month from 1 on.
pub record Day : Type 0 where
  pub year : ℕ
  pub month : ℕ
  pub date : ℕ

-- The number of a day; the day of the month may lie outside of its month, also at 0.
unfoldable pub number_of : ℕ → ℕ → ℕ → ℕ
unfolding span
number_of year month date = span 0 year + days_before (month_lengths year) month + date - 1

abbrev pub full_year : ℕ → ℕ
full_year year = if leb year 99 then 1900 + year else year

-- `Date.UTC(year, month - 1, date)`, where years below 100 are of the twentieth century, and a month
-- outside of the year is carried to it.
unfoldable pub date_utc : ℕ → ℕ → ℕ → ℕ
unfolding number_of
date_utc year month date =
    let months = full_year year * 12 + month - 1 in number_of (months / 12) (months % 12) date

-- The year of the day `rest` of `year`, and its day in the year, on fuel.
unfoldable pub year_of : ℕ → ℕ → ℕ → ℕ × ℕ
year_of zero year rest = (year, rest)
year_of (suc fuel) year rest =
    let later = year_of fuel (suc year) (rest - days_in_year year) in
    if ltb rest (days_in_year year) then (year, rest) else later

unfoldable pub month_of : List ℕ → ℕ → ℕ × ℕ
month_of [] rest = (0, rest)
month_of (n ∷ lengths) rest =
    let later = month_of lengths (rest - n) in
    if ltb rest n then (0, rest) else (suc later.0, later.1)

unfoldable pub day_in : ℕ × ℕ → Day
unfolding month_of
day_in found =
    let within = month_of (month_lengths found.0) found.1 in
    record { year = found.0; month = within.0; date = suc within.1 }

-- `getUTCFullYear`, `getUTCMonth` and `getUTCDate`. Every year has a day, so that the fuel is enough.
unfoldable pub day_of : ℕ → Day
unfolding year_of day_in
day_of number = day_in (year_of (suc number) 0 number)

-- `getUTCDay`; day 0 was a Saturday.
unfoldable pub weekday_of : ℕ → ℕ
weekday_of number = (number + 6) % 7
