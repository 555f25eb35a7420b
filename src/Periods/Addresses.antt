-- ===== src/Periods/Addresses.antt =====
-- The address of a period leads back to the days of the period.
use ledgerly_app.Base.{
  ℕ, suc, ◌-◌, ◌≡◌, refl, ap, ◌∙◌, Bool, true, ◌&&◌, Option, none, some, Text, arith, if◌then◌else◌,
  text_eq, leb, le→leb,
}
use ledgerly_app.Dates.Days.{month_lengths, is_leap}
use ledgerly_app.Dates.Inverse.{day_of-number}
use ledgerly_app.Dates.DateOnly.{Parts, map_some, date_fields, parts_for, date_only_to_utc_date}
use ledgerly_app.Dates.Real.{IsDate, as_day, as_day-IsDay, same_three, is_real-IsDate}
use ledgerly_app.Dates.Texts.{keep_real-some}
use ledgerly_app.Dates.Reading.{length_of-le, months_short}
use ledgerly_app.Dates.Moving.{IsDateOf}
use ledgerly_app.Periods.{is_iso_day, is_key, key_of, valid_date_key}

map_some-source :
    {A B : Type 0} (f : A → B) (o : Option A) {b : B}
    → map_some f o ≡ some b
    → (a : A) × (o ≡ some a)
map_some-source f none e = ground arith
map_some-source f (some a) e = (a, refl)

IsDate-is_iso_day : (p : Parts) → IsDate p → is_iso_day p ≡ true
unfolding is_iso_day
IsDate-is_iso_day p h =
    let found = day_of-number (as_day p) (as_day-IsDay p h) in
    same_three _ _ _ p.year p.month p.day (ap (λ d. d.year) found)
      (ap (λ d. suc d.month) found ∙ omega (arith, h.month_positive)) (ap (λ d. d.date) found)

three_true : (a b c : Bool) → a ≡ true → b ≡ true → c ≡ true → (a && b && c) ≡ true
three_true a b c e f g = ground arith

IsDate-is_key : (p : Parts) → IsDate p → is_key p ≡ true
IsDate-is_key p h =
    let short = length_of-le (month_lengths p.year) (p.month - 1) (months_short (is_leap p.year)) in
    three_true (leb 1 p.month) (leb p.month 12) (leb p.day 31) (le→leb 1 p.month h.month_positive)
      (le→leb p.month 12 h.month_le) (le→leb p.day 31 (omega (arith, h.day_le)))

key_of-kept :
    (value : Text) (b c : Bool)
    → b ≡ true
    → c ≡ true
    → (if b && c then some value else none) ≡ some value
key_of-kept value b c e f = rw (e, f) refl

-- A date is a valid key.
pub IsDateOf-valid_date_key :
    (value : Text) (n : ℕ) → IsDateOf value n → valid_date_key value ≡ some value
unfolding valid_date_key key_of date_only_to_utc_date parts_for
IsDateOf-valid_date_key value n h =
    let parts = map_some-source _ (parts_for value) h in
    let fields = (keep_real-some (date_fields value) parts.0).0 parts.1 in
    let date = is_real-IsDate parts.0 fields.1 in
    ap (key_of value) fields.0
    ∙ key_of-kept value (is_key parts.0) (is_iso_day parts.0) (IsDate-is_key parts.0 date)
        (IsDate-is_iso_day parts.0 date)
