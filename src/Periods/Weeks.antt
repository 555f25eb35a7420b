-- ===== src/Periods/Weeks.antt =====
-- This week, the last seven days, and the days that the API is asked for.
use ledgerly_app.Base.{
  ℕ, suc, ◌+◌, ◌-◌, ◌%◌, ◌≤◌, ◌<◌, ◌≡◌, refl, ap, ◌∙◌, Option, some, none, Text, arith, true,
  if◌then◌else◌, ◌++◌, codes,
}
use ledgerly_app.Base.Integers.{pos, neg, shift}
use ledgerly_app.Dates.Days.{weekday_of}
use ledgerly_app.Dates.DateOnly.{
  map_some, is_date_only, is_some, parts_for, date_only_from_utc_date, date_only_to_utc_date,
  date_only_weekday, add_date_only_days,
}
use ledgerly_app.Dates.Reading.{date_only_to_utc_date-from, HasFourDigits}
use ledgerly_app.Dates.Range.{number-HasFourDigits}
use ledgerly_app.Dates.Moving.{IsDateOf}
use ledgerly_app.Dates.Picker.{then_with}
use ledgerly_app.Dates.Grid.{month_start, start-printed, add_printed, then_with-some, shift_back}
use ledgerly_app.Periods.{this_week, week_period, period_of, period_value_for_mode}
use ledgerly_app.Periods.Windows.{added}
use ledgerly_app.Periods.Spans.{period_from}
use ledgerly_app.Periods.Cashflow.{midnight, transaction_api_date_range}

monday-weekday : (n : ℕ) → 7 ≤ n → weekday_of (n - (weekday_of n + 6) % 7) ≡ 1
unfolding weekday_of
monday-weekday n h = omega arith

week_period-printed :
    (today : Text) (n monday : ℕ)
    → IsDateOf today n
    → HasFourDigits monday
    → shift n (neg ((weekday_of n + 6) % 7)) ≡ monday
    → week_period today ≡ some (period_from this_week (month_start monday) monday (monday + 6))
unfolding week_period date_only_weekday
week_period-printed today n monday h monday_in back =
    let text = date_only_from_utc_date monday in
    let read = date_only_to_utc_date-from monday monday_in in
    then_with-some _ (ap (map_some weekday_of) h)
    ∙ then_with-some _ (
        added today n (neg ((weekday_of n + 6) % 7)) h
        ∙ ap (λ k. some (date_only_from_utc_date k)) back)
    ∙ then_with-some _ (start-printed text monday read)
    ∙ then_with-some _ (add_printed monday (pos 6) monday_in)

-- This week is that of today, from Monday to Sunday, for days from 1000-01-07 on with years of four
-- digits.
pub period_value_for_mode-week :
    (month from to today : Text) (n : ℕ)
    → IsDateOf today n
    → 365249 ≤ n
    → n < 3652425
    → (monday : ℕ) × (weekday_of monday ≡ 1)
      × (monday ≤ n)
      × (n ≤ monday + 6)
      × (period_value_for_mode this_week month from to today
          ≡ some (period_from this_week (month_start monday) monday (monday + 6)))
unfolding period_value_for_mode period_of
period_value_for_mode-week month from to today n h low high =
    let since = (weekday_of n + 6) % 7 in
    let few : since < 7 = omega arith in
    let monday = n - since in
    let monday_in : HasFourDigits monday =
      number-HasFourDigits monday (omega arith) (omega arith) in
    (
      monday,
      monday-weekday n (omega arith),
      omega arith,
      omega arith,
      then_with-some _ (start-printed today n h)
          ∙ week_period-printed today n monday h monday_in (shift_back n since),
    )

map_some-some :
    {A B : Type 0} (f : A → B) (o : Option A) {b : B} → map_some f o ≡ some b → is_some o ≡ true
map_some-some f none e = ground arith
map_some-some f (some a) e = refl

pub IsDateOf-is_date_only :
    (value : Text) (n : ℕ) → IsDateOf value n → is_date_only (some value) ≡ true
unfolding is_date_only date_only_to_utc_date
IsDateOf-is_date_only value n h = map_some-some _ (parts_for value) h

-- The API is asked for the days up to the start of the one after the last.
pub transaction_api_date_range-next :
    (from to : Text) (n : ℕ)
    → IsDateOf to n
    → transaction_api_date_range from to
      ≡ some (midnight from, midnight (date_only_from_utc_date (suc n)))
unfolding transaction_api_date_range
transaction_api_date_range-next from to n h =
    let next : n + 1 ≡ suc n = omega arith in
    ap
      (λ b.
        if◌then◌else◌ {A = Option (Text × Text)} b
          (then_with (add_date_only_days to (pos 1))
            (λ next_day. some (midnight from, midnight next_day)))
          (some (midnight from, to ++ codes "T23:59:59.999Z")))
      (IsDateOf-is_date_only to n h)
    ∙ then_with-some _ (added to n (pos 1) h)
    ∙ ap (λ k. some (midnight from, midnight (date_only_from_utc_date k))) next
