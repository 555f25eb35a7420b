-- ===== src/Dates/Reading.antt =====
-- What is read as a date, and that what is printed is read back.
use ledgerly_app.Base.{
  ℕ, zero, suc, ◌-◌, ◌≤◌, ◌<◌, ◌≡◌, ◌↔◌, sym, ap, ◌∙◌, Bool, true, false, some, List, All, [], ◌∷◌,
  ◌++◌, Text, codes, arith,
}
use mathlib.Core.Path.{subst}
use ledgerly_app.Dates.Days.{
  Day, date_utc, day_of, length_of, month_lengths, lengths_of_months, is_leap, number_of,
}
use ledgerly_app.Dates.Inverse.{IsDay, day_of-IsDay, number-day_of}
use ledgerly_app.Dates.Printing.{decimal-four, pad-two}
use ledgerly_app.Dates.Real.{IsDate, is_real-IsDate, is_real_of_IsDate, date_utc-number}
use ledgerly_app.Dates.Texts.{written, written-digits, keep_real-some, date_fields_iff}
use ledgerly_app.Dates.DateOnly.{
  Parts, date_fields, parts_for, date_only_from_parts, date_only_from_utc_date,
  date_only_to_utc_date, map_some,
}

pub length_of-le :
    (lengths : List ℕ) (month : ℕ) → All (λ n. n ≤ 31) lengths → length_of lengths month ≤ 31
length_of-le [] month h = omega arith
length_of-le (n ∷ lengths) zero h = h.0
length_of-le (n ∷ lengths) (suc month) h = length_of-le lengths month h.1

pub months_short : (leap : Bool) → All (λ n. n ≤ 31) (lengths_of_months leap)
months_short true = ground arith
months_short false = ground arith

month_small : (p : Parts) → IsDate p → p.month < 100
month_small p h = omega (arith, h.month_le)

pub day_small : (p : Parts) → IsDate p → p.day < 100
day_small p h = omega (
  arith,
  h.day_le,
  length_of-le (month_lengths p.year) (p.month - 1) (months_short (is_leap p.year)),
)

-- A text is read as a date exactly if it is the date's YYYY-MM-DD, a day of the calendar of a year from
-- 100 to 9999.
pub parts_for_iff :
    (s : Text) (p : Parts)
    → (parts_for s ≡ some p) ↔ (IsDate p × (p.year < 10000) × (s ≡ written p))
unfolding parts_for
parts_for_iff s p = (
  λ h.
      let real = (keep_real-some (date_fields s) p).0 h in
      let text = (date_fields_iff s p).0 real.0 in (is_real-IsDate p real.1, text.0, text.3),
  λ h. (keep_real-some (date_fields s) p).1 (
    (date_fields_iff s p).1 (h.1, month_small p h.0, day_small p h.0, h.2),
    is_real_of_IsDate p h.0,
  ),
)

-- The day has a year of four digits, as it is printed.
abbrev pub HasFourDigits : ℕ → Type 0
HasFourDigits n = (1000 ≤ (day_of n).year) × ((day_of n).year < 10000)

abbrev parts_of : Day → Parts
parts_of day = record { year = day.year; month = suc day.month; day = day.date }

suc_less : (m : ℕ) → m ≡ suc m - 1
suc_less m = omega arith

parts_of-IsDate : (day : Day) → IsDay day → 100 ≤ day.year → IsDate (parts_of day)
parts_of-IsDate day h k = record {
  year_ge = k;
  month_positive = omega arith;
  month_le = omega (arith, h.month_lt);
  day_positive = h.date_positive;
  day_le =
      subst (λ m. day.date ≤ length_of (month_lengths day.year) m) (suc_less day.month) h.date_le;
}

parts_printed :
    {year month day s t u : Text}
    → year ≡ s
    → month ≡ t
    → day ≡ u
    → year ++ codes "-" ++ month ++ codes "-" ++ day ≡ s ++ codes "-" ++ t ++ codes "-" ++ u
parts_printed e f g = λ i. e i ++ codes "-" ++ f i ++ codes "-" ++ g i

print-written :
    (p : Parts)
    → 1000 ≤ p.year
    → p.year < 10000
    → p.month < 100
    → p.day < 100
    → date_only_from_parts p.year p.month p.day ≡ written p
unfolding date_only_from_parts
print-written p h k m d =
    parts_printed (decimal-four p.year h k) (pad-two p.month m) (pad-two p.day d)
    ∙ sym (written-digits p k m d)

-- A day that is printed is read back as the same day.
pub date_only_to_utc_date-from :
    (n : ℕ) → HasFourDigits n → date_only_to_utc_date (date_only_from_utc_date n) ≡ some n
unfolding date_only_to_utc_date date_only_from_utc_date
date_only_to_utc_date-from n h =
    let day = day_of n in
    let p = parts_of day in
    let date = parts_of-IsDate day (day_of-IsDay n) (omega (arith, h.0)) in
    let text = print-written p h.0 h.1 (month_small p date) (day_small p date) in
    let read =
      (parts_for_iff (date_only_from_parts day.year (suc day.month) day.date) p).1
        (date, h.1, text) in
    ap (map_some (λ q. date_utc q.year q.month q.day)) read
    ∙ ap some (
        date_utc-number p date
        ∙ ap (λ m. number_of day.year m day.date) (sym (suc_less day.month))
        ∙ number-day_of n)
