-- ===== src/Periods/Spans.antt =====
-- What the periods are, in days.
use ledgerly_app.Base.{ℕ, ◌+◌, ◌-◌, ◌≤◌, ◌<◌, ◌≡◌, sym, ap, ◌∙◌, some, Text, arith}
use mathlib.Core.Path.{subst}
use ledgerly_app.Dates.Days.{number_of, month_lengths, length_of}
use ledgerly_app.Dates.DateOnly.{date_only_from_utc_date}
use ledgerly_app.Dates.Reading.{date_only_to_utc_date-from, HasFourDigits}
use ledgerly_app.Dates.Range.{number-HasFourDigits}
use ledgerly_app.Dates.Moving.{IsDateOf}
use ledgerly_app.Dates.Grid.{month_start, month_start-day_of, start-printed, then_with-some}
use ledgerly_app.Periods.{
  this_month, DashboardPeriodMode, DashboardPeriodValue, month_period, period_of,
  period_value_for_mode,
}
use ledgerly_app.Periods.Windows.{month_days, in_month, end-printed}

month_start_self : (n : ℕ) → month_start (month_start n) ≡ month_start n
month_start_self n = ap (λ d. number_of d.year d.month 1) (month_start-day_of n)

month_days_same : (n : ℕ) → month_days (month_start n) ≡ month_days n
month_days_same n = ap (λ d. length_of (month_lengths d.year) d.month) (month_start-day_of n)

-- The period of days that are printed.
abbrev pub period_from : DashboardPeriodMode → ℕ → ℕ → ℕ → DashboardPeriodValue
period_from mode month first last = record {
  mode = mode;
  month = date_only_from_utc_date month;
  from = date_only_from_utc_date first;
  to = date_only_from_utc_date last;
}

month_period-printed :
    (mode : DashboardPeriodMode) (n : ℕ)
    → HasFourDigits (month_start n)
    → HasFourDigits (month_start n + month_days n)
    → month_period mode (date_only_from_utc_date (month_start n))
      ≡ some (period_from mode (month_start n) (month_start n) (month_start n + month_days n - 1))
unfolding month_period
month_period-printed mode n start_in next_in =
    let start = month_start n in
    let end : month_start start + month_days start ≡ start + month_days n =
      λ i. month_start_self n i + month_days_same n i in
    then_with-some _ (
      end-printed (date_only_from_utc_date start) start (date_only_to_utc_date-from start start_in)
        (omega (arith, start_in.0)) (subst HasFourDigits (sym (month_start_self n)) start_in)
        (subst HasFourDigits (sym end) next_in))
    ∙ ap (λ e. some (period_from mode start start (e - 1))) end

-- This month is the one that holds today, from its first to its last day, where both and the next day
-- have a year of four digits.
pub period_value_for_mode-month :
    (month from to today : Text) (n : ℕ)
    → IsDateOf today n
    → 365243 ≤ month_start n
    → month_start n + month_days n < 3652425
    → (month_start n ≤ n)
      × (n ≤ month_start n + month_days n - 1)
      × (period_value_for_mode this_month month from to today
          ≡ some (
              period_from this_month
                (month_start n)
                (month_start n)
                (month_start n + month_days n - 1)))
unfolding period_value_for_mode period_of
period_value_for_mode-month month from to today n h low high =
    let inside = in_month n in
    (
      inside.0,
      omega (arith, inside.1),
      then_with-some _ (start-printed today n h)
          ∙ month_period-printed this_month n (number-HasFourDigits _ low (omega arith))
              (number-HasFourDigits _ (omega arith) high),
    )
