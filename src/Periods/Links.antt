-- ===== src/Periods/Links.antt =====
-- The address of a range of days leads back to the days.
use ledgerly_app.Base.{
  ℕ, ◌≡◌, ap, ap₂, ◌∙◌, Bool, true, false, not, ◌&&◌, Option, some, List, [], ◌∷◌, Text, codes,
  if◌then◌else◌, arith, ◌==◌, text_eq,
}
use ledgerly_app.Dates.DateOnly.{is_date_only, start_of_date_only_month, date_only_from_utc_date}
use ledgerly_app.Dates.Moving.{IsDateOf}
use ledgerly_app.Dates.Picker.{then_with, text_less}
use ledgerly_app.Dates.Grid.{month_start, start-printed, then_with-some}
use ledgerly_app.Periods.{
  end_of_date_only_month, custom_range, this_week, last_7_days, this_year, this_month, last_month,
  custom_month, all_time, DashboardPeriodMode, DashboardPeriodValue, date_only_for_month_key,
  range_period, period_of, period_value_for_mode,
}
use ledgerly_app.Periods.Queries.{
  period_query, dashboard_period_from_search_params, requested_mode, end_or, text_or,
}
use ledgerly_app.Periods.Weeks.{IsDateOf-is_date_only}
use ledgerly_app.Periods.Addresses.{IsDateOf-valid_date_key}

-- The first value of a name, as `URLSearchParams.get` reads it back.
abbrev pub value_of : List (Text × Text) → Text → Text
value_of [] name = []
value_of (pair ∷ pairs) name = if pair.0 == name then pair.1 else value_of pairs name

-- A range as the address gives it, of a month that starts its first day's month.
abbrev pub range_of : Text → Text → ℕ → DashboardPeriodValue
range_of from to start = record {
  mode = custom_range;
  month = date_only_from_utc_date (month_start start);
  from = from;
  to = to;
}

-- The end of a range that begins with `from`, and its period.
abbrev range_to : Text → Text → Text → Bool → Option DashboardPeriodValue
range_to from to current is_kept =
    then_with (if is_kept then some to else end_of_date_only_month current) (λ safe_to.
      then_with (start_of_date_only_month from)
        (λ month. some (record { mode = custom_range; month = month; from = from; to = safe_to })))

range_period-kept :
    (from to current : Text) (a b : ℕ)
    → IsDateOf from a
    → IsDateOf to b
    → text_less to from ≡ false
    → range_period from to current ≡ some (range_of from to a)
unfolding range_period
range_period-kept from to current a b h k e =
    ap
      (λ b.
        let safe_from = if b then from else current in
        range_to safe_from to current (is_date_only (some to) && not (text_less to safe_from)))
      (IsDateOf-is_date_only from a h)
    ∙ ap (λ c. range_to from to current (c && not (text_less to from)))
        (IsDateOf-is_date_only to b k)
    ∙ ap (λ c. range_to from to current (not c)) e
    ∙ then_with-some _ (start-printed from a h)

abbrev range_query : Text → Text → List (Text × Text)
range_query from to = (codes "from", from) ∷ (codes "to", to) ∷ []

range-read :
    (from to today : Text) (a b n : ℕ)
    → IsDateOf from a
    → IsDateOf to b
    → IsDateOf today n
    → text_less to from ≡ false
    → dashboard_period_from_search_params (value_of (range_query from to)) today
      ≡ some (range_of from to a)
unfolding dashboard_period_from_search_params end_or period_value_for_mode period_of
range-read from to today a b n h k t e =
    let get = value_of (range_query from to) in
    ap₂
      (λ f u. then_with (start_of_date_only_month today) (λ current.
        then_with (end_or u current) (λ end.
          period_value_for_mode (requested_mode get f u)
            (date_only_for_month_key (get (codes "month")) current) (text_or f current) end today)))
      (IsDateOf-valid_date_key from a h) (IsDateOf-valid_date_key to b k)
    ∙ then_with-some _ (start-printed today n t)
    ∙ then_with-some _ (start-printed today n t)
    ∙ range_period-kept from to _ a b h k e

-- The periods whose address gives their first and last day.
abbrev pub is_range : DashboardPeriodMode → Bool
is_range custom_range = true
is_range this_week = true
is_range last_7_days = true
is_range this_year = true
is_range _ = false

-- The address of a custom range, a week, the last seven days or a year leads back to the same first and
-- last day, as a custom range, where both are dates and the last is not before the first.
pub dashboard_period_from_search_params-query :
    (mode : DashboardPeriodMode) (month from to today : Text) (a b n : ℕ)
    → is_range mode ≡ true
    → IsDateOf from a
    → IsDateOf to b
    → IsDateOf today n
    → text_less to from ≡ false
    → dashboard_period_from_search_params
        (value_of (period_query (record { mode = mode; month = month; from = from; to = to })))
        today
      ≡ some (range_of from to a)
dashboard_period_from_search_params-query custom_range month from to today a b n r h k t e =
    range-read from to today a b n h k t e
dashboard_period_from_search_params-query this_week month from to today a b n r h k t e =
    range-read from to today a b n h k t e
dashboard_period_from_search_params-query last_7_days month from to today a b n r h k t e =
    range-read from to today a b n h k t e
dashboard_period_from_search_params-query this_year month from to today a b n r h k t e =
    range-read from to today a b n h k t e
dashboard_period_from_search_params-query this_month month from to today a b n r h k t e =
    ground arith
dashboard_period_from_search_params-query last_month month from to today a b n r h k t e =
    ground arith
dashboard_period_from_search_params-query custom_month month from to today a b n r h k t e =
    ground arith
dashboard_period_from_search_params-query all_time month from to today a b n r h k t e =
    ground arith
