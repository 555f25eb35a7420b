-- ===== src/Periods/Queries.antt =====
-- The period that an address asks for, and the addresses of a period. `get` is `URLSearchParams.get`, a
-- missing parameter being the empty text, and `print` its `toString`, of the pairs in their order.
use ledgerly_app.Base.{
  Bool, true, false, ◌&&◌, ◌||◌, Option, none, some, List, [], ◌∷◌, ◌++◌, Text, codes, take, ◌==◌,
  text_eq, if◌then◌else◌,
}
use ledgerly_app.Dates.DateOnly.{is_some, start_of_date_only_month}
use ledgerly_app.Dates.Picker.{then_with}
use ledgerly_app.Periods.{
  valid_date_key, end_of_date_only_month, date_only_for_month_key, DashboardPeriodMode, this_month,
  last_month, custom_month, custom_range, this_week, last_7_days, this_year, all_time,
  DashboardPeriodValue, period_value_for_mode,
}

abbrev pub mode_names : List (Text × DashboardPeriodMode)
mode_names =
    (codes "this-month", this_month)
    ∷ (codes "last-month", last_month)
    ∷ (codes "custom-month", custom_month)
    ∷ (codes "custom-range", custom_range)
    ∷ (codes "this-week", this_week)
    ∷ (codes "last-7-days", last_7_days)
    ∷ (codes "this-year", this_year)
    ∷ (codes "all-time", all_time)
    ∷ []

abbrev pub mode_named : List (Text × DashboardPeriodMode) → Text → Option DashboardPeriodMode
mode_named [] name = none
mode_named (m ∷ modes) name = if m.0 == name then some m.1 else mode_named modes name

abbrev pub is_given : Text → Bool
is_given [] = false
is_given (_ ∷ _) = true

abbrev pub mode_or : Option DashboardPeriodMode → DashboardPeriodMode → DashboardPeriodMode
mode_or none other = other
mode_or (some mode) other = mode

abbrev pub text_or : Option Text → Text → Text
text_or none other = other
text_or (some s) other = s

-- The end that is asked for, or that of the month.
unfoldable pub end_or : Option Text → Text → Option Text
unfolding end_of_date_only_month
end_or none current = end_of_date_only_month current
end_or (some to) current = some to

module _ (get : Text → Text) where
  abbrev pub all_time_requested : Bool
  all_time_requested = get (codes "allTime") == codes "true" || get (codes "allTime") == codes "1"

  abbrev pub requested_mode : Option Text → Option Text → DashboardPeriodMode
  requested_mode from to = mode_or (mode_named mode_names (get (codes "period"))) (
      if all_time_requested
      then all_time
      else if is_some from && is_some to
      then custom_range
      else if is_given (get (codes "month"))
      then custom_month
      else this_month)

  unfoldable pub dashboard_period_from_search_params : Text → Option DashboardPeriodValue
  unfolding valid_date_key end_or date_only_for_month_key period_value_for_mode
      start_of_date_only_month
  dashboard_period_from_search_params today =
      let from = valid_date_key (get (codes "from")) in
      let to = valid_date_key (get (codes "to")) in
      then_with (start_of_date_only_month today) (λ current. then_with (end_or to current) (λ end.
        period_value_for_mode (requested_mode from to)
          (date_only_for_month_key (get (codes "month")) current) (text_or from current) end today))

abbrev pub period_query : DashboardPeriodValue → List (Text × Text)
period_query period = query period.mode
  where
    range : List (Text × Text)
    range = (codes "from", period.from) ∷ (codes "to", period.to) ∷ []

    month : List (Text × Text)
    month = (codes "month", take 7 period.month) ∷ []

    query : DashboardPeriodMode → List (Text × Text)
    query all_time = (codes "allTime", codes "true") ∷ []
    query this_month = month
    query last_month = month
    query custom_month = month
    query _ = range

module _ (print : List (Text × Text) → Text) where
  abbrev pub dashboard_period_path : DashboardPeriodValue → Text
  dashboard_period_path period = codes "/dashboard?" ++ print (period_query period)

  -- The transactions behind a part of the dashboard; `field` is the name of the part's parameter.
  abbrev pub dashboard_drilldown_path : DashboardPeriodValue → Text → Text → Text
  dashboard_drilldown_path period field value =
      codes "/app/transactions?" ++ print (query period.mode ++ (field, value) ∷ [])
    where
      query : DashboardPeriodMode → List (Text × Text)
      query all_time = (codes "allTime", codes "true") ∷ []
      query _ = (codes "from", period.from) ∷ (codes "to", period.to) ∷ []
