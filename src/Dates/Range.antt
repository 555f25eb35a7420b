-- ===== src/Dates/Range.antt =====
-- The days whose year has four digits, and how the getters of a day follow its number.
use ledgerly_app.Base.{ℕ, zero, suc, ◌+◌, ◌-◌, ◌≤◌, ◌<◌, ◌≡◌, refl, ap, arith, inl, inr}
use ledgerly_app.Dates.Days.{days_in_year, span, day_of, number_of, month_lengths}
use ledgerly_app.Dates.Scan.{lt_or_le, all_months, zero_add, add_zero, add_suc}
use ledgerly_app.Dates.Inverse.{number-split, day_of-IsDay, number-day_of, days_before-lt}
use ledgerly_app.Dates.Months.{span-suc}
use ledgerly_app.Dates.Reading.{HasFourDigits}

suc_add : (a b : ℕ) → suc a + b ≡ suc (a + b)
suc_add a b = omega arith

span-add : (year years more : ℕ) → span year years ≤ span year (years + more)
span-add year years zero = let same = ap (span year) (add_zero years) in omega arith
span-add year years (suc more) =
    let same = ap (span year) (add_suc years more) in
    let next = span-suc year (years + more) in
    let grown = ap (span year) (suc_add years more) in
    let rest = span-add year years more in omega arith

span_mono : (years later : ℕ) → years ≤ later → span 0 years ≤ span 0 later
span_mono years later h =
    let sum : years + (later - years) ≡ later = omega arith in
    let rest = span-add 0 years (later - years) in let same = ap (span 0) sum in omega arith

-- A day lies in its year.
in_year : (n : ℕ) → (span 0 (day_of n).year ≤ n) × (n < span 0 (suc (day_of n).year))
in_year n =
    let day = day_of n in
    let real = day_of-IsDay n in
    let rest = day.date - 1 in
    let before =
      days_before-lt (month_lengths day.year) day.month rest
        (omega (arith, real.date_le, real.date_positive)) in
    let whole = all_months day.year in
    let date : suc rest ≡ day.date = omega (arith, real.date_positive) in
    let split = number-split day.year day.month rest in
    let same = ap (number_of day.year day.month) date in
    let back = number-day_of n in
    let after = span-suc 0 day.year in
    let zeroth = ap days_in_year (zero_add day.year) in (omega arith, omega arith)

first_day : span 0 1000 ≡ 365243
unfolding span
first_day = refl

end_day : span 0 10000 ≡ 3652425
unfolding span
end_day = refl

-- From 1000-01-01 to 9999-12-31.
pub number-HasFourDigits : (n : ℕ) → 365243 ≤ n → n < 3652425 → HasFourDigits n
number-HasFourDigits n h k =
    let bounds = in_year n in
    (
      elim (lt_or_le (day_of n).year 1000) [
        | inl lt ↦
            let early = span_mono (suc (day_of n).year) 1000 lt in absurd (omega (arith, first_day))
        | inr le ↦ le
      ],
      elim (lt_or_le (day_of n).year 10000) [
        | inl lt ↦ lt
        | inr le ↦ let late = span_mono 10000 (day_of n).year le in absurd (omega (arith, end_day))
      ],
    )
