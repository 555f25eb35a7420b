-- ===== src/Examples/Periods.antt =====
-- A Wednesday in November.
use ledgerly_app.Base.{ℕ, ◌+◌, ◌-◌, ◌≤◌, ◌≡◌, refl, arith, some, Text, codes}
use ledgerly_app.Base.Decimal.{decimal, decimal_fuel, digits_value, pad_start}
use ledgerly_app.Dates.Days.{
  number_of, date_utc, day_of, day_in, year_of, month_of, span, weekday_of,
}
use ledgerly_app.Dates.DateOnly.{
  date_fields, is_real, keep_real, parts_for, pad, date_only_from_parts, date_only_from_utc_date,
  date_only_to_utc_date, is_date_only, add_date_only_days, add_date_only_months, add_months,
  first_of_month, last_day, start_of_date_only_month,
}
use ledgerly_app.Dates.Moving.{IsDateOf}
use ledgerly_app.Dates.Grid.{month_start}
use ledgerly_app.Periods.{
  DashboardPeriodValue, this_month, this_week, custom_range, period_value_for_mode, period_of,
  range_period, end_of_date_only_month,
}
use ledgerly_app.Periods.Windows.{month_days}
use ledgerly_app.Periods.Spans.{period_from, period_value_for_mode-month}
use ledgerly_app.Periods.Weeks.{period_value_for_mode-week}
use ledgerly_app.Periods.Queries.{period_query, dashboard_period_from_search_params}
use ledgerly_app.Periods.Links.{value_of, range_of, dashboard_period_from_search_params-query}

abbrev today : Text
today = codes "2026-11-25"

abbrev today_number : ℕ
today_number = 740310

today-IsDateOf : IsDateOf today today_number
unfolding date_only_to_utc_date parts_for date_fields keep_real is_real date_utc number_of day_of
    day_in year_of month_of span digits_value
today-IsDateOf = refl

period_value_for_mode-month_example :
    (month_start today_number ≤ today_number)
    × (today_number ≤ month_start today_number + month_days today_number - 1)
    × (period_value_for_mode this_month today today today today
        ≡ some (
            period_from this_month
              (month_start today_number)
              (month_start today_number)
              (month_start today_number + month_days today_number - 1)))
unfolding day_of day_in year_of month_of number_of span
period_value_for_mode-month_example =
    period_value_for_mode-month today today today today today_number today-IsDateOf (omega arith)
      (omega arith)

period_value_for_mode-week_example :
    (monday : ℕ) × (weekday_of monday ≡ 1)
    × (monday ≤ today_number)
    × (today_number ≤ monday + 6)
    × (period_value_for_mode this_week today today today today
        ≡ some (period_from this_week (month_start monday) monday (monday + 6)))
period_value_for_mode-week_example =
    period_value_for_mode-week today today today today today_number today-IsDateOf (omega arith)
      (omega arith)

week_start-IsDateOf : IsDateOf (codes "2026-11-23") 740308
unfolding date_only_to_utc_date parts_for date_fields keep_real is_real date_utc number_of day_of
    day_in year_of month_of span digits_value
week_start-IsDateOf = refl

-- The address of the week up to today.
dashboard_period_from_search_params-query_example :
    dashboard_period_from_search_params
      (value_of (
        period_query (record {
          mode = this_week;
          month = codes "2026-11-01";
          from = codes "2026-11-23";
          to = today;
        })))
      today
    ≡ some (range_of (codes "2026-11-23") today 740308)
dashboard_period_from_search_params-query_example =
    dashboard_period_from_search_params-query this_week (codes "2026-11-01") (codes "2026-11-23")
      today today 740308 today_number today_number refl week_start-IsDateOf today-IsDateOf
      today-IsDateOf refl

-- A range that begins after the end of this month, and ends before it begins, is replaced by one that
-- ends before it begins.
abbrev turned_range : DashboardPeriodValue
turned_range = record {
  mode = custom_range;
  month = codes "2027-05-01";
  from = codes "2027-05-01";
  to = codes "2026-11-30";
}

range_turned :
    period_value_for_mode custom_range today (codes "2027-05-01") (codes "2027-04-01") today
    ≡ some turned_range
unfolding period_value_for_mode period_of range_period end_of_date_only_month
    start_of_date_only_month is_date_only add_date_only_days add_date_only_months add_months
    first_of_month last_day date_only_from_utc_date date_only_to_utc_date parts_for date_fields
    keep_real is_real date_utc number_of day_of day_in year_of month_of span digits_value
    date_only_from_parts pad pad_start decimal decimal_fuel
range_turned = refl
