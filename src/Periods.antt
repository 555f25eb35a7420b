-- ===== src/Periods.antt =====
-- The reporting periods of the dashboard: web/src/pages/finance/home-transactions.tsx, from
-- `validDateKey` to `cashflowTransactionPath`. None stands for a TypeError where a date is made, and for
-- `null` where a value is read.
pub mod Queries
pub mod Cashflow
pub mod Windows
pub mod Spans
pub mod Weeks
pub mod Addresses
pub mod Links
use ledgerly_app.Base.{
  ℕ, zero, suc, ◌+◌, ◌-◌, ◌%◌, Bool, true, false, not, ◌&&◌, ◌||◌, Option, none, some, List, [],
  ◌∷◌, ◌++◌, Text, codes, take, all, is_digit, leb, ◌==◌, nat_eq, text_eq, if◌then◌else◌,
}
use ledgerly_app.Base.Integers.{pos, neg}
use ledgerly_app.Dates.Days.{day_of, number_of}
use ledgerly_app.Dates.DateOnly.{
  Parts, date_fields, is_some, is_date_only, add_date_only_days, add_date_only_months,
  start_of_date_only_month, date_only_weekday,
}
use ledgerly_app.Dates.Picker.{text_less, then_with}

-- A day that `new Date` reads from an ISO text and does not move.
unfoldable pub is_iso_day : Parts → Bool
unfolding day_of number_of
is_iso_day p =
    let found = day_of (number_of p.year (p.month - 1) p.day) in
    found.year == p.year && suc found.month == p.month && found.date == p.day

-- `DATE_KEY_PATTERN.test`, of the fields of a date.
abbrev pub is_key : Parts → Bool
is_key p = leb 1 p.month && leb p.month 12 && leb p.day 31

unfoldable pub key_of : Text → Option Parts → Option Text
unfolding is_iso_day
key_of value none = none
key_of value (some p) = if is_key p && is_iso_day p then some value else none

-- A missing value is the empty one.
unfoldable pub valid_date_key : Text → Option Text
unfolding key_of date_fields
valid_date_key value = key_of value (date_fields value)

module _ (iso_date : Text → Option Text) where
  abbrev pub key_or_timestamp : Option Text → Text → Option Text
  key_or_timestamp (some key) value = some key
  key_or_timestamp none [] = none
  key_or_timestamp none (c ∷ value) = iso_date (c ∷ value)

  -- `iso_date` is what `toISOString` gives of a text that `new Date` reads, cut to ten units.
  unfoldable pub valid_date_or_timestamp_key : Text → Option Text
  unfolding valid_date_key
  valid_date_or_timestamp_key value = key_or_timestamp (valid_date_key value) value

unfoldable pub end_of_date_only_month : Text → Option Text
unfolding start_of_date_only_month add_date_only_months add_date_only_days
end_of_date_only_month month = then_with (start_of_date_only_month month) (λ start.
    then_with (add_date_only_months start (pos 1)) (λ next. add_date_only_days next (neg 1)))

-- `MONTH_QUERY_PATTERN.test`, on the code units of YYYY-MM.
abbrev pub is_month_key : Text → Bool
is_month_key (a ∷ b ∷ c ∷ d ∷ m ∷ e ∷ f ∷ []) =
    all is_digit (a ∷ b ∷ c ∷ d ∷ [])
    && m == b'-'
    && (e == b'0' && leb b'1' f && leb f b'9' || e == b'1' && leb b'0' f && leb f b'2')
is_month_key _ = false

unfoldable pub date_only_for_month_key : Text → Text → Text
unfolding is_date_only
date_only_for_month_key value fallback =
    let candidate = if is_month_key value then value ++ codes "-01" else [] in
    if is_date_only (some candidate) then candidate else fallback

pub data DashboardPeriodMode : Type 0 where
  this_month last_month custom_month custom_range this_week last_7_days this_year all_time :
      DashboardPeriodMode

pub record DashboardPeriodValue : Type 0 where
  pub mode : DashboardPeriodMode
  pub month : Text
  pub from : Text
  pub to : Text

abbrev period : DashboardPeriodMode → Text → Text → Text → DashboardPeriodValue
period mode month from to = record { mode = mode; month = month; from = from; to = to }

-- The period of a whole month, whose first day is given.
unfoldable pub month_period : DashboardPeriodMode → Text → Option DashboardPeriodValue
unfolding end_of_date_only_month
month_period mode start =
    then_with (end_of_date_only_month start) (λ end. some (period mode start start end))

unfoldable pub range_period : Text → Text → Text → Option DashboardPeriodValue
unfolding is_date_only end_of_date_only_month start_of_date_only_month
range_period from to current_month =
    let safe_from = if is_date_only (some from) then from else current_month in
    then_with
      (if is_date_only (some to) && not (text_less to safe_from)
        then some to
        else end_of_date_only_month current_month)
      (λ safe_to.
        then_with (start_of_date_only_month safe_from)
          (λ month. some (period custom_range month safe_from safe_to)))

-- The week from Monday on; noon of a day has the weekday of the day.
unfoldable pub week_period : Text → Option DashboardPeriodValue
unfolding date_only_weekday add_date_only_days start_of_date_only_month
week_period today = then_with (date_only_weekday today) (λ weekday.
    then_with (add_date_only_days today (neg ((weekday + 6) % 7))) (λ week_start.
      then_with (start_of_date_only_month week_start) (λ month.
        then_with (add_date_only_days week_start (pos 6))
          (λ week_end. some (period this_week month week_start week_end)))))

unfoldable pub last_days_period : Text → Option DashboardPeriodValue
unfolding add_date_only_days start_of_date_only_month
last_days_period today = then_with (add_date_only_days today (neg 6)) (λ from.
    then_with (start_of_date_only_month from) (λ month. some (period last_7_days month from today)))

unfoldable pub period_of :
    DashboardPeriodMode → Text → Text → Text → Text → Text → Option DashboardPeriodValue
unfolding month_period range_period week_period last_days_period add_date_only_months
    start_of_date_only_month
period_of last_month month from to today current =
    then_with (add_date_only_months current (neg 1)) (month_period last_month)
period_of custom_month month from to today current =
    then_with (start_of_date_only_month month) (month_period custom_month)
period_of custom_range month from to today current = range_period from to current
period_of this_week month from to today current = week_period today
period_of last_7_days month from to today current = last_days_period today
period_of this_year month from to today current =
    let start = take 4 today ++ codes "-01-01" in
    some (period this_year start start (take 4 today ++ codes "-12-31"))
period_of all_time month from to today current =
    some (period all_time current (codes "1970-01-01") today)
period_of this_month month from to today current = month_period this_month current

unfoldable pub period_value_for_mode :
    DashboardPeriodMode → Text → Text → Text → Text → Option DashboardPeriodValue
unfolding period_of start_of_date_only_month
period_value_for_mode mode month from to today =
    then_with (start_of_date_only_month today) (period_of mode month from to today)
