-- ===== src/Dates/Real.antt =====
-- Which dates are real: those of the calendar, from the year 100 on.
use ledgerly_app.Base.{
  ℕ, zero, suc, ◌+◌, ◌-◌, ◌*◌, ◌/◌, ◌%◌, ◌≤◌, ◌<◌, ◌≡◌, ap, ◌∙◌, true, ◌&&◌, arith, ◌==◌, nat_eq,
  nat_beq_iff, inl, inr,
}
use mathlib.Core.Path.{subst₃}
use ledgerly_app.Dates.Days.{
  Day, days_in_year, month_lengths, span, length_of, number_of, full_year, date_utc, day_of,
}
use ledgerly_app.Dates.Scan.{lt_or_le, span-le, all_months}
use ledgerly_app.Dates.Inverse.{
  IsDay, number, number-day_of, day_of-number, day_of-IsDay, days_before-lt,
}
use ledgerly_app.Dates.DateOnly.{Parts, is_real}

pub record IsDate (p : Parts) : Type 0 where
  pub year_ge : 100 ≤ p.year
  pub month_positive : 0 < p.month
  pub month_le : p.month ≤ 12
  pub day_positive : 0 < p.day
  pub day_le : p.day ≤ length_of (month_lengths p.year) (p.month - 1)

abbrev pub as_day : Parts → Day
as_day p = record { year = p.year; month = p.month - 1; date = p.day }

pub as_day-IsDay : (p : Parts) → IsDate p → IsDay (as_day p)
as_day-IsDay p h = record {
  month_lt = omega (arith, h.month_positive, h.month_le);
  date_positive = h.day_positive;
  date_le = h.day_le;
}

-- No month is carried.
pub date_utc-number : (p : Parts) → IsDate p → date_utc p.year p.month p.day ≡ number (as_day p)
unfolding date_utc
date_utc-number p h =
    let year : full_year p.year ≡ p.year = ground (arith, h.year_ge) in
    let carried : (full_year p.year * 12 + p.month - 1) / 12 ≡ p.year =
      omega (arith, year, h.month_positive, h.month_le) in
    let month : (full_year p.year * 12 + p.month - 1) % 12 ≡ p.month - 1 =
      omega (arith, year, h.month_positive, h.month_le) in
    ap (λ y. number_of y ((full_year p.year * 12 + p.month - 1) % 12) p.day) carried
    ∙ ap (λ m. number_of p.year m p.day) month

pub day_of-date_utc : (p : Parts) → IsDate p → day_of (date_utc p.year p.month p.day) ≡ as_day p
day_of-date_utc p h = ap day_of (date_utc-number p h) ∙ day_of-number (as_day p) (as_day-IsDay p h)

span-upper : (year years : ℕ) → span year years ≤ years * 366
unfolding span
span-upper year zero = omega arith
span-upper year (suc years) = ground (arith, span-upper (suc year) years)

number_of-upper : (day : Day) → IsDay day → number day ≤ day.year * 366 + 372
unfolding number_of
number_of-upper day h =
    let rest = day.date - 1 in
    let lengths = month_lengths day.year in
    let before =
      days_before-lt lengths day.month rest (omega (arith, h.date_le, h.date_positive)) in
    let year : days_in_year day.year ≤ 366 = ground arith in
    let whole = all_months day.year in let upper = span-upper 0 day.year in omega arith

-- A year below 100 is of the twentieth century, and is not found again.
date_utc-late : (p : Parts) → p.year ≤ 99 → 693000 ≤ date_utc p.year p.month p.day
unfolding date_utc number_of
date_utc-late p h =
    let full : full_year p.year ≡ 1900 + p.year = ground arith in
    let lower = span-le 0 ((full_year p.year * 12 + p.month - 1) / 12) in omega arith

three_same : (a b c x y z : ℕ) → (a == x && b == y && c == z) ≡ true → (a ≡ x) × (b ≡ y) × (c ≡ z)
three_same a b c x y z h = ground (arith, nat_beq_iff a x, nat_beq_iff b y, nat_beq_iff c z)

pub same_three : (a b c x y z : ℕ) → a ≡ x → b ≡ y → c ≡ z → (a == x && b == y && c == z) ≡ true
same_three a b c x y z e f g = ground (arith, nat_beq_iff a x, nat_beq_iff b y, nat_beq_iff c z)

fits :
    {y m d year month date : ℕ}
    → y ≡ year
    → m ≡ month
    → d ≡ date
    → d ≤ length_of (month_lengths y) m
    → date ≤ length_of (month_lengths year) month
fits e f g h = subst₃ (λ y m d. d ≤ length_of (month_lengths y) m) e f g h

pub is_real-IsDate : (p : Parts) → is_real p ≡ true → IsDate p
unfolding is_real
is_real-IsDate p h =
    let n = date_utc p.year p.month p.day in
    let found = day_of n in
    let same = three_same found.year (suc found.month) found.date p.year p.month p.day h in
    let day = day_of-IsDay n in
    let month : found.month ≡ p.month - 1 = omega (arith, same.1) in
    record {
      year_ge = elim (lt_or_le p.year 100) [
        | inl early ↦ absurd (
            omega (
              arith,
              same.0,
              date_utc-late p (omega arith),
              number-day_of n,
              number_of-upper found day,
            ))
        | inr late ↦ late
      ];
      month_positive = omega (arith, same.1);
      month_le = omega (arith, same.1, day.month_lt);
      day_positive = omega (arith, same.2, day.date_positive);
      day_le = fits same.0 month same.2 day.date_le;
    }

pub is_real_of_IsDate : (p : Parts) → IsDate p → is_real p ≡ true
unfolding is_real
is_real_of_IsDate p h =
    let found = day_of-date_utc p h in
    same_three _ _ _ p.year p.month p.day (ap (λ d. d.year) found)
      (ap (λ d. suc d.month) found ∙ omega (arith, h.month_positive)) (ap (λ d. d.date) found)
