-- ===== src/Dates/Picker.antt =====
-- The calendar of web/src/components/date-picker.tsx; a missing bound is none. None stands for a
-- TypeError, as in `DateOnly`.
use ledgerly_app.Base.{
  ℕ, zero, suc, ◌-◌, Bool, true, false, ◌&&◌, ◌||◌, Option, none, some, List, [], ◌∷◌, Text, ltb,
  ◌==◌, nat_eq, text_eq, if◌then◌else◌,
}
use ledgerly_app.Base.Integers.{pos, neg}
use ledgerly_app.Dates.DateOnly.{
  is_date_only, add_date_only_days, add_date_only_months, start_of_date_only_month,
  date_only_weekday,
}

-- `s < t` on strings
abbrev pub text_less : Text → Text → Bool
text_less s [] = false
text_less [] (d ∷ t) = true
text_less (c ∷ s) (d ∷ t) = ltb c d || c == d && text_less s t

abbrev pub text_or_empty : Option Text → Text
text_or_empty none = []
text_or_empty (some s) = s

-- A bound counts if it is a date.
unfoldable pub is_below : Text → Option Text → Bool
unfolding is_date_only
is_below value min = is_date_only min && text_less value (text_or_empty min)

unfoldable pub is_above : Text → Option Text → Bool
unfolding is_date_only
is_above value max = is_date_only max && text_less (text_or_empty max) value

-- `today` is `todayDateOnly()`.
unfoldable pub clamp_initial_date : Text → Text → Option Text → Option Text → Text
unfolding is_date_only is_below is_above
clamp_initial_date today value min max =
    let next = if is_date_only (some value) then value else today in
    let raised = if is_below next min then text_or_empty min else next in
    if is_above raised max then text_or_empty max else raised

unfoldable pub is_outside_range : Text → Option Text → Option Text → Bool
unfolding is_below is_above
is_outside_range value min max = is_below value min || is_above value max

abbrev pub then_with {ℓ κ} : {A : Type ℓ} {B : Type κ} → Option A → (A → Option B) → Option B
then_with none f = none
then_with (some a) f = f a

-- The days from `first` on: `count` of them, the next one being that of `index`.
unfoldable pub days_from : Text → ℕ → ℕ → Option (List Text)
unfolding add_date_only_days
days_from first zero index = some []
days_from first (suc count) index =
    then_with (add_date_only_days first (pos index))
      (λ day. then_with (days_from first count (suc index)) (λ days. some (day ∷ days)))

unfoldable pub get_visible_calendar_days : Text → Option (List Text)
unfolding days_from start_of_date_only_month date_only_weekday add_date_only_days
get_visible_calendar_days month = then_with (start_of_date_only_month month) (λ month_start.
    then_with (date_only_weekday month_start) (λ weekday.
      then_with (add_date_only_days month_start (neg weekday)) (λ first. days_from first 42 0)))

unfoldable pub get_week_boundary : Text → Bool → Option Text
unfolding date_only_weekday add_date_only_days
get_week_boundary value end =
    then_with (date_only_weekday value)
      (λ weekday. add_date_only_days value (if end then pos (6 - weekday) else neg weekday))

-- The bounds, and the state of `Calendar`; `chosen` is the value that was last handed to
-- `onValueChange`, after which the calendar is dismissed.
pub record Calendar : Type 0 where
  pub min : Option Text
  pub max : Option Text
  pub visible_month : Text
  pub focused_date : Text
  pub chosen : Option Text

-- None where the day has no month: the source throws then, with the focus already moved.
unfoldable pub move_focus : Text → Calendar → Option Calendar
unfolding is_outside_range start_of_date_only_month
move_focus next c =
    if is_outside_range next c.min c.max
    then some c
    else then_with (start_of_date_only_month next)
        (λ month. some (record c { focused_date = next; visible_month = month }))

unfoldable pub select_date : Text → Calendar → Calendar
unfolding is_outside_range
select_date next c =
    if is_outside_range next c.min c.max then c else record c { chosen = some next }

pub data Key : Type 0 where
  arrow_left arrow_right arrow_up arrow_down home_key end_key page_up page_down enter other_key :
      Key

-- Where a key leads from `day`; none of the two if it does not move.
unfoldable pub target : Key → Text → Option (Option Text)
unfolding add_date_only_days add_date_only_months get_week_boundary
target arrow_left day = some (add_date_only_days day (neg 1))
target arrow_right day = some (add_date_only_days day (pos 1))
target arrow_up day = some (add_date_only_days day (neg 7))
target arrow_down day = some (add_date_only_days day (pos 7))
target home_key day = some (get_week_boundary day false)
target end_key day = some (get_week_boundary day true)
target page_up day = some (add_date_only_months day (neg 1))
target page_down day = some (add_date_only_months day (pos 1))
target enter day = none
target other_key day = none

unfoldable pub press : Key → Calendar → Calendar
unfolding select_date
press enter c = select_date c.focused_date c
press _ c = c

-- A key that moves the focus, to the day that it leads to, and one that does not.
unfoldable pub follow : Key → Option (Option Text) → Calendar → Option Calendar
unfolding move_focus press
follow key none c = some (press key c)
follow key (some moved) c = then_with moved (λ next. move_focus next c)

-- `onDayKeyDown`
unfoldable pub on_day_key_down : Key → Text → Calendar → Option Calendar
unfolding target follow
on_day_key_down key day c = follow key (target key day) c
