-- ===== src/Dates/Inverse.antt =====
-- The calendar and the day numbers are inverse to each other.
use ledgerly_app.Base.{
  ℕ, zero, suc, ◌+◌, ◌-◌, ◌≤◌, ◌<◌, ◌≡◌, refl, sym, ap, ◌∙◌, Bool, List, [], ◌∷◌, arith, length,
}
use ledgerly_app.Dates.Days.{
  days_in_year, lengths_of_months, month_lengths, span, days_before, length_of, Day, number_of,
  year_of, month_of, day_in, day_of,
}
use ledgerly_app.Dates.Scan.{
  zero_add, year_of-IsYearOf, year_of-span, span-le, IsMonthOf, month_of-IsMonthOf,
  month_of-days_before, all_months,
}

-- A day that the calendar has.
pub record IsDay (day : Day) : Type 0 where
  pub month_lt : day.month < 12
  pub date_positive : 0 < day.date
  pub date_le : day.date ≤ length_of (month_lengths day.year) day.month

abbrev pub number : Day → ℕ
number day = number_of day.year day.month day.date

day_in-found :
    (found : ℕ × ℕ)
    → found.1 < days_in_year found.0
    → IsMonthOf (month_lengths found.0) found.1 (month_of (month_lengths found.0) found.1)
day_in-found found h =
    month_of-IsMonthOf (month_lengths found.0) found.1 (omega (arith, all_months found.0))

length_months : (leap : Bool) → length (lengths_of_months leap) ≡ 12
length_months leap = refl

day_in-IsDay : (found : ℕ × ℕ) → found.1 < days_in_year found.0 → IsDay (day_in found)
unfolding day_in
day_in-IsDay found h =
    let month = day_in-found found h in
    record { month_lt = month.within; date_positive = omega arith; date_le = month.left }

pub day_of-IsDay : (n : ℕ) → IsDay (day_of n)
unfolding day_of
day_of-IsDay n = day_in-IsDay _ (year_of-IsYearOf (suc n) 0 n (omega arith)).left

number-day_in :
    (found : ℕ × ℕ)
    → found.1 < days_in_year found.0
    → number (day_in found) ≡ span 0 found.0 + found.1
unfolding day_in number_of
number-day_in found h = omega (arith, (day_in-found found h).total)

pub number-day_of : (n : ℕ) → number (day_of n) ≡ n
unfolding day_of
number-day_of n =
    let found = year_of-IsYearOf (suc n) 0 n (omega arith) in
    let year = ap (span 0) (found.later ∙ zero_add found.years) in
    number-day_in _ found.left ∙ omega (arith, found.total, year)

day_in-number :
    (year month rest : ℕ)
    → rest < length_of (month_lengths year) month
    → day_in (year, days_before (month_lengths year) month + rest)
      ≡ record { year = year; month = month; date = suc rest }
unfolding day_in
day_in-number year month rest h =
    ap (λ m. record { year = year; month = m.0; date = suc m.1 })
      (month_of-days_before (month_lengths year) month rest h)

pub days_before-lt :
    (lengths : List ℕ) (month rest : ℕ)
    → rest < length_of lengths month
    → days_before lengths month + rest < days_before lengths (length lengths)
days_before-lt [] month rest h = absurd (omega arith)
days_before-lt (n ∷ lengths) zero rest h = omega arith
days_before-lt (n ∷ lengths) (suc month) rest h = omega (arith, days_before-lt lengths month rest h)

pub number-split :
    (year month rest : ℕ)
    → number_of year month (suc rest)
      ≡ span 0 year + (days_before (month_lengths year) month + rest)
unfolding number_of
number-split year month rest = omega arith

-- The day of a number that is made of a year, a month and a day of it.
day_of-number_of :
    (year month rest : ℕ)
    → rest < length_of (month_lengths year) month
    → day_of (number_of year month (suc rest))
      ≡ record { year = year; month = month; date = suc rest }
unfolding day_of
day_of-number_of year month rest h =
    let in_year = days_before (month_lengths year) month + rest in
    let split = number-split year month rest in
    let early : in_year < days_in_year year =
      omega (arith, days_before-lt (month_lengths year) month rest h, all_months year) in
    let within : in_year < days_in_year (0 + year) = rw (zero_add year) early in
    let fuel = suc (number_of year month (suc rest)) in
    ap (λ n. day_in (year_of fuel 0 n)) split
    ∙ ap day_in (year_of-span year fuel 0 in_year within (omega (arith, span-le 0 year)))
    ∙ ap (λ y. day_in (y, in_year)) (zero_add year)
    ∙ day_in-number year month rest h

pub day_of-number : (day : Day) → IsDay day → day_of (number day) ≡ day
day_of-number day h =
    let date : suc (day.date - 1) ≡ day.date = omega (arith, h.date_positive) in
    ap (λ d. day_of (number_of day.year day.month d)) (sym date)
    ∙ day_of-number_of day.year day.month (day.date - 1) (omega (arith, h.date_le, h.date_positive))
    ∙ ap (λ d. record { year = day.year; month = day.month; date = d }) date
