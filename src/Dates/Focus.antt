-- ===== src/Dates/Focus.antt =====
-- The calendar never leaves its bounds.
use ledgerly_app.Base.{
  ◌≡◌, refl, Bool, true, false, ◌&&◌, ◌||◌, Option, none, some, [], ◌∷◌, Text, arith, inl, inr,
  Bool-cases, nat_eq, if◌then◌else◌,
}
use mathlib.Core.Path.{subst}
use ledgerly_app.Dates.DateOnly.{is_date_only, start_of_date_only_month}
use ledgerly_app.Dates.Picker.{
  text_less, text_or_empty, is_below, is_above, clamp_initial_date, is_outside_range, then_with,
  Calendar, move_focus, select_date, Key, arrow_left, arrow_right, arrow_up, arrow_down, home_key,
  end_key, page_up, page_down, enter, other_key, target, press, follow, on_day_key_down,
}

-- The focused day, and a day that is chosen, are within the bounds.
pub record IsWithin (c : Calendar) : Type 0 where
  pub focused : is_outside_range c.focused_date c.min c.max ≡ false
  pub picked : (value : Text) → c.chosen ≡ some value → is_outside_range value c.min c.max ≡ false

some_text : {a b : Text} → some a ≡ some b → a ≡ b
some_text e = grind arith

AllWithin : Option Calendar → Type 0
AllWithin none = Unit
AllWithin (some c) = IsWithin c

choice-AllWithin :
    (b : Bool) (x y : Option Calendar)
    → (b ≡ true → AllWithin x)
    → (b ≡ false → AllWithin y)
    → AllWithin (if b then x else y)
choice-AllWithin true x y h k = h refl
choice-AllWithin false x y h k = k refl

moved-AllWithin :
    (next : Text) (c : Calendar) (month : Option Text)
    → IsWithin c
    → is_outside_range next c.min c.max ≡ false
    → AllWithin (then_with month (λ m. some (record c { focused_date = next; visible_month = m })))
unfolding AllWithin
moved-AllWithin next c none h e = tt
moved-AllWithin next c (some m) h e = record { focused = e; picked = h.picked }

move_focus-AllWithin : (next : Text) (c : Calendar) → IsWithin c → AllWithin (move_focus next c)
unfolding move_focus AllWithin
move_focus-AllWithin next c h =
    choice-AllWithin (is_outside_range next c.min c.max) _ _ (λ e. h)
      (λ e. moved-AllWithin next c (start_of_date_only_month next) h e)

choice-IsWithin :
    (b : Bool) (x y : Calendar)
    → IsWithin x
    → (b ≡ false → IsWithin y)
    → IsWithin (if b then x else y)
choice-IsWithin true x y h k = h
choice-IsWithin false x y h k = k refl

select_date-IsWithin : (c : Calendar) → IsWithin c → IsWithin (select_date c.focused_date c)
unfolding select_date
select_date-IsWithin c h = choice-IsWithin (is_outside_range c.focused_date c.min c.max) _ _ h (λ e.
    record {
      focused = h.focused;
      picked = λ value k. subst (λ v. is_outside_range v c.min c.max ≡ false) (some_text k) e;
    })

press-IsWithin : (key : Key) (c : Calendar) → IsWithin c → IsWithin (press key c)
unfolding press
press-IsWithin arrow_left c h = h
press-IsWithin arrow_right c h = h
press-IsWithin arrow_up c h = h
press-IsWithin arrow_down c h = h
press-IsWithin home_key c h = h
press-IsWithin end_key c h = h
press-IsWithin page_up c h = h
press-IsWithin page_down c h = h
press-IsWithin enter c h = select_date-IsWithin c h
press-IsWithin other_key c h = h

follow-AllWithin :
    (key : Key) (moved : Option (Option Text)) (c : Calendar)
    → IsWithin c
    → AllWithin (follow key moved c)
unfolding follow AllWithin
follow-AllWithin key none c h = press-IsWithin key c h
follow-AllWithin key (some none) c h = tt
follow-AllWithin key (some (some next)) c h = move_focus-AllWithin next c h

-- Whatever key is pressed on whatever day, what is focused and what is chosen stays within the bounds.
pub on_day_key_down-IsWithin :
    (key : Key) (day : Text) (c after : Calendar)
    → IsWithin c
    → on_day_key_down key day c ≡ some after
    → IsWithin after
unfolding on_day_key_down AllWithin
on_day_key_down-IsWithin key day c after h e =
    subst AllWithin e (follow-AllWithin key (target key day) c h)

text_less_irrefl : (s : Text) → text_less s s ≡ false
text_less_irrefl [] = refl
text_less_irrefl (c ∷ s) = ground (arith, text_less_irrefl s)

and_false : (b c : Bool) → c ≡ false → (b && c) ≡ false
and_false b c e = ground arith

and_true : (b c : Bool) → (b && c) ≡ true → b ≡ true
and_true b c e = ground arith

is_below_self : (min : Option Text) → is_below (text_or_empty min) min ≡ false
unfolding is_below
is_below_self min = and_false (is_date_only min) _ (text_less_irrefl (text_or_empty min))

is_above_self : (max : Option Text) → is_above (text_or_empty max) max ≡ false
unfolding is_above
is_above_self max = and_false (is_date_only max) _ (text_less_irrefl (text_or_empty max))

-- A value that is replaced where a test finds it passes the test then, if the replacement does.
replaced :
    (test : Text → Bool) (other value : Text)
    → test other ≡ false
    → test (if test value then other else value) ≡ false
replaced test other value h = elim (Bool-cases (test value)) [ inl e ↦ rw e h | inr e ↦ rw e e ]

kept_by :
    (b : Bool) (test : Text → Bool) (other value : Text)
    → (b ≡ true → test other ≡ false)
    → test value ≡ false
    → test (if b then other else value) ≡ false
kept_by true test other value h k = h refl
kept_by false test other value h k = k

neither : (a b : Bool) → a ≡ false → b ≡ false → (a || b) ≡ false
neither a b e k = ground arith

-- The first focus lies within the bounds, where the upper one, if it is a date, is not below the lower.
pub clamp_initial_date-within :
    (today value : Text) (min max : Option Text)
    → (is_date_only max ≡ true → is_below (text_or_empty max) min ≡ false)
    → is_outside_range (clamp_initial_date today value min max) min max ≡ false
unfolding clamp_initial_date is_outside_range is_above
clamp_initial_date-within today value min max h =
    let next = if is_date_only (some value) then value else today in
    let low = text_or_empty min in
    let raised = if is_below next min then low else next in
    let not_below = replaced (λ s. is_below s min) low next (is_below_self min) in
    neither _ _
      (kept_by (is_above raised max) (λ s. is_below s min) (text_or_empty max) raised
        (λ e. h (and_true (is_date_only max) _ e)) not_below)
      (replaced (λ s. is_above s max) (text_or_empty max) raised (is_above_self max))
