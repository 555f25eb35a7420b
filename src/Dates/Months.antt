-- ===== src/Dates/Months.antt =====
-- The months: their last days, and moving a date from one to another.
use ledgerly_app.Base.{
  ℕ, zero, suc, ◌+◌, ◌-◌, ◌*◌, ◌/◌, ◌%◌, min, ◌≤◌, ◌<◌, ◌≡◌, sym, ap, ◌∙◌, Bool, true, false, List,
  All, [], ◌∷◌, arith, inl, inr, length,
}
use ledgerly_app.Base.Integers.{ℤ, shift}
use ledgerly_app.Dates.Days.{
  Day, date_utc, day_of, length_of, days_before, month_lengths, lengths_of_months, is_leap,
  days_in_year, number_of, full_year, span,
}
use ledgerly_app.Dates.Scan.{all_months, lt_or_le, zero_add, add_zero, add_suc}
use ledgerly_app.Dates.Inverse.{IsDay, day_of-IsDay, day_of-number}
use ledgerly_app.Dates.DateOnly.{add_months, first_of_month, last_day}

pub span-suc :
    (year years : ℕ) → span year (suc years) ≡ span year years + days_in_year (year + years)
unfolding span
span-suc year zero = let same = ap days_in_year (add_zero year) in omega arith
span-suc year (suc years) =
    let rest = span-suc (suc year) years in
    let same = ap days_in_year (add_suc year years) in omega arith

pub days_before-suc :
    (lengths : List ℕ) (month : ℕ)
    → days_before lengths (suc month) ≡ days_before lengths month + length_of lengths month
days_before-suc [] zero = omega arith
days_before-suc [] (suc month) = omega arith
days_before-suc (n ∷ lengths) zero = omega arith
days_before-suc (n ∷ lengths) (suc month) = omega (arith, days_before-suc lengths month)

length_of-All :
    (lengths : List ℕ) (month : ℕ)
    → All (λ n. 0 < n) lengths
    → month < length lengths
    → 0 < length_of lengths month
length_of-All [] month h k = absurd (omega arith)
length_of-All (n ∷ lengths) zero h k = h.0
length_of-All (n ∷ lengths) (suc month) h k = length_of-All lengths month h.1 (omega arith)

months_full : (leap : Bool) → All (λ n. 0 < n) (lengths_of_months leap)
months_full true = ground arith
months_full false = ground arith

pub length_of-positive : (year month : ℕ) → month < 12 → 0 < length_of (month_lengths year) month
length_of-positive year month h =
    length_of-All (month_lengths year) month (months_full (is_leap year)) h

-- The day before the first of the next month.
next_month-number_of :
    (year month : ℕ)
    → suc month < 12
    → number_of year (suc month) 0 ≡ number_of year month (length_of (month_lengths year) month)
unfolding number_of
next_month-number_of year month h =
    let before = days_before-suc (month_lengths year) month in
    ap (λ n. span 0 year + n + 0 - 1) before ∙ omega arith

next_year-number_of :
    (year : ℕ) → number_of (suc year) 0 0 ≡ number_of year 11 (length_of (month_lengths year) 11)
unfolding number_of
next_year-number_of year =
    let year_end = span-suc 0 year in
    let same = ap days_in_year (zero_add year) in
    let months = days_before-suc (month_lengths year) 11 in
    let whole = all_months year in omega arith

-- Months are carried to years.
pub carried_to :
    (total year month date : ℕ)
    → total ≡ year * 12 + month
    → month < 12
    → number_of (total / 12) (total % 12) date ≡ number_of year month date
carried_to total year month date e h =
    let years : total / 12 ≡ year = omega arith in
    let months : total % 12 ≡ month = omega arith in λ i. number_of (years i) (months i) date

full_year-late : (year : ℕ) → 100 ≤ year → full_year year ≡ year
full_year-late year h = ground arith

date_utc-last :
    (year month : ℕ)
    → 100 ≤ year
    → month < 12
    → date_utc year (month + 2) 0 ≡ number_of year month (length_of (month_lengths year) month)
unfolding date_utc
date_utc-last year month k h =
    let full = full_year-late year k in
    elim (lt_or_le (suc month) 12) [
      | inl lt ↦
          carried_to (full_year year * 12 + (month + 2) - 1) year (suc month) 0 (omega arith) lt
          ∙ next_month-number_of year month lt
      | inr le ↦
          let last : month ≡ 11 = omega arith in
          carried_to (full_year year * 12 + (month + 2) - 1) (suc year) 0 0 (omega arith)
            (omega arith)
          ∙ next_year-number_of year
          ∙ ap (λ m. number_of year m (length_of (month_lengths year) m)) (sym last)
    ]

-- The last day that is found is the length of the month.
last_day-length_of :
    (day : Day)
    → day.month < 12
    → 100 ≤ day.year
    → last_day day ≡ length_of (month_lengths day.year) day.month
unfolding last_day
last_day-length_of day h k =
    let length_here = length_of (month_lengths day.year) day.month in
    let last : Day = record { year = day.year; month = day.month; date = length_here } in
    let real : IsDay last = record {
      month_lt = h;
      date_positive = length_of-positive day.year day.month h;
      date_le = omega arith;
    } in
    ap (λ n. (day_of n).date) (date_utc-last day.year day.month k h)
    ∙ ap (λ d. d.date) (day_of-number last real)

-- The month that `months` months lead to, counted from the year 0.
abbrev pub month_after : ℕ → ℤ → ℕ
month_after n months = shift ((day_of n).year * 12 + (day_of n).month) months

first_of_month-day_of :
    (n : ℕ) (months : ℤ)
    → day_of (first_of_month (day_of n) months)
      ≡ record { year = month_after n months / 12; month = month_after n months % 12; date = 1 }
unfolding first_of_month
first_of_month-day_of n months =
    let total = month_after n months in
    let first : Day = record { year = total / 12; month = total % 12; date = 1 } in
    day_of-number first (record {
      month_lt = omega arith;
      date_positive = omega arith;
      date_le = length_of-positive (total / 12) (total % 12) (omega arith);
    })

-- Months are added to the months of a date, and its day of the month stays, or becomes the last day of
-- a month that is shorter, where the year that is reached is not below 100.
pub add_months-day_of :
    (n : ℕ) (months : ℤ)
    → 100 ≤ month_after n months / 12
    → day_of (add_months n months) ≡ record {
      year = month_after n months / 12;
      month = month_after n months % 12;
      date =
          min
            (day_of n).date
            (length_of (month_lengths (month_after n months / 12)) (month_after n months % 12));
    }
unfolding add_months
add_months-day_of n months k =
    let total = month_after n months in
    let first : Day = record { year = total / 12; month = total % 12; date = 1 } in
    let within : total % 12 < 12 = omega arith in
    let date = (day_of n).date in
    let cut = min date (length_of (month_lengths (total / 12)) (total % 12)) in
    let moved : Day = record { year = total / 12; month = total % 12; date = cut } in
    let real : IsDay moved = record {
      month_lt = within;
      date_positive = omega (
        arith,
        (day_of-IsDay n).date_positive,
        length_of-positive (total / 12) (total % 12) within,
      );
      date_le = omega arith;
    } in
    ap (λ m. day_of (number_of m.year m.month (min date (last_day m))))
      (first_of_month-day_of n months)
    ∙ ap (λ l. day_of (number_of (total / 12) (total % 12) (min date l)))
        (last_day-length_of first within k)
    ∙ day_of-number moved real
