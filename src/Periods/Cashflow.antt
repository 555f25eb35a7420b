-- ===== src/Periods/Cashflow.antt =====
-- The transactions of a day, and of a range of days.
use ledgerly_app.Base.{
  ℕ, Bool, false, ◌&&◌, Option, none, some, List, [], ◌∷◌, ◌++◌, Text, codes, filter, ◌==◌, text_eq,
  if◌then◌else◌,
}
use ledgerly_app.Base.Integers.{pos}
use ledgerly_app.Base.Decimal.{decimal}
use ledgerly_app.Dates.DateOnly.{
  Parts, date_fields, is_date_only, add_date_only_days, date_only_from_utc_date,
}
use ledgerly_app.Dates.Picker.{then_with}
use ledgerly_app.Periods.{is_key}

pub record CashflowRange : Type 0 where
  pub period : Text
  pub from : Text
  pub to : Text

abbrev pub midnight : Text → Text
midnight day = day ++ codes "T00:00:00.000Z"

-- `CASHFLOW_DAY_PATTERN.test`
abbrev pub is_day_key : Option Parts → Bool
is_day_key none = false
is_day_key (some p) = is_key p

-- From the start of a day to the start of the next one; a missing day is the empty text.
unfoldable pub cashflow_day_range : Text → Option CashflowRange
unfolding date_fields is_date_only add_date_only_days
cashflow_day_range period =
    if is_day_key (date_fields period) && is_date_only (some period)
    then then_with (add_date_only_days period (pos 1)) (λ next_day.
      some (record { period = period; from = midnight period; to = midnight next_day }))
    else none

-- The range that the API is asked for, with an end that is left out of it.
unfoldable pub transaction_api_date_range : Text → Text → Option (Text × Text)
unfolding is_date_only add_date_only_days
transaction_api_date_range from to =
    if is_date_only (some to)
    then then_with (add_date_only_days to (pos 1))
        (λ next_day. some (midnight from, midnight next_day))
    else some (midnight from, to ++ codes "T23:59:59.999Z")

module _ (encode : Text → Text) where
  -- `encode` is `encodeURIComponent`.
  unfoldable pub cashflow_transaction_path : Option CashflowRange → ℕ → Text
  unfolding decimal
  cashflow_transaction_path none limit = codes "/transactions?limit=12"
  cashflow_transaction_path (some range) limit =
      codes "/transactions?from="
      ++ encode range.from
      ++ codes "&to="
      ++ encode range.to
      ++ codes "&limit="
      ++ decimal limit

-- `date` is the day of the transaction's instant, none where it is not one.
unfoldable pub transaction_day : Option ℕ → Text
unfolding date_only_from_utc_date
transaction_day none = []
transaction_day (some date) = date_only_from_utc_date date

-- `date_of` reads the instant of a transaction.
unfoldable pub transactions_for_cashflow_day {ℓ} :
    {T : Type ℓ} → (T → Option ℕ) → List T → Text → List T
unfolding transaction_day
transactions_for_cashflow_day date_of transactions [] = []
transactions_for_cashflow_day date_of transactions (c ∷ period) =
    filter (λ t. transaction_day (date_of t) == c ∷ period) transactions
