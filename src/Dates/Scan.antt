-- ===== src/Dates/Scan.antt =====
-- The search for the year and the month of a day.
use ledgerly_app.Base.{
  ℕ, zero, suc, ◌+◌, ◌-◌, ◌*◌, ◌≤◌, ◌<◌, ◌≡◌, refl, sym, ap, ◌∙◌, false, List, [], ◌∷◌, ltb, arith,
  ◌⊎◌, inl, inr, Bool-cases, length, lt→ltb, ltb→lt,
}
use ledgerly_app.Dates.Days.{
  is_leap, days_in_year, month_lengths, span, days_before, length_of, year_of, month_of,
}

pub le→ltb_not : (a b : ℕ) → b ≤ a → ltb a b ≡ false
le→ltb_not a b h = ground arith

pub lt_or_le : (a b : ℕ) → (a < b) ⊎ (b ≤ a)
lt_or_le a b = elim (Bool-cases (ltb a b)) [
  | inl e ↦ inl (ltb→lt a b e)
  | inr e ↦ inr (ground arith)
]

pub add_zero : (a : ℕ) → a + 0 ≡ a
add_zero a = omega arith

pub zero_add : (a : ℕ) → 0 + a ≡ a
zero_add a = omega arith

pub add_suc : (a b : ℕ) → a + suc b ≡ suc a + b
add_suc a b = omega arith

cancel : (a b c : ℕ) → a + b + c - a ≡ b + c
cancel a b c = omega arith

days_in_year-positive : (year : ℕ) → 365 ≤ days_in_year year
days_in_year-positive year = ground arith

pub span-le : (year years : ℕ) → years * 365 ≤ span year years
unfolding span
span-le year zero = omega arith
span-le year (suc years) = omega (arith, days_in_year-positive year, span-le (suc year) years)

-- What a search for a year finds: the years passed over, and the days that are left of the year.
pub record IsYearOf (year rest : ℕ) (found : ℕ × ℕ) : Type 0 where
  pub years : ℕ
  pub later : found.0 ≡ year + years
  pub left : found.1 < days_in_year found.0
  pub total : rest ≡ span year years + found.1

year_of-here :
    (fuel year rest : ℕ) → rest < days_in_year year → year_of (suc fuel) year rest ≡ (year, rest)
unfolding year_of
year_of-here fuel year rest h = rw (lt→ltb _ _ h) refl

year_of-later :
    (fuel year rest : ℕ)
    → days_in_year year ≤ rest
    → year_of (suc fuel) year rest ≡ year_of fuel (suc year) (rest - days_in_year year)
unfolding year_of
year_of-later fuel year rest h = rw (le→ltb_not rest (days_in_year year) h) refl

skip_year :
    (year rest : ℕ) {found : ℕ × ℕ}
    → days_in_year year ≤ rest
    → IsYearOf (suc year) (rest - days_in_year year) found
    → IsYearOf year rest found
unfolding span
skip_year year rest h found = record {
  years = suc found.years;
  later = found.later ∙ omega arith;
  left = found.left;
  total = omega (arith, found.total);
}

pub year_of-IsYearOf :
    (fuel year rest : ℕ) → rest < fuel → IsYearOf year rest (year_of fuel year rest)
unfolding span
year_of-IsYearOf zero year rest h = absurd (omega arith)
year_of-IsYearOf (suc fuel) year rest h = elim (lt_or_le rest (days_in_year year)) [
  | inl lt ↦
      rw (year_of-here fuel year rest lt)
        (record { years = 0; later = omega arith; left = lt; total = omega arith })
  | inr le ↦ rw (year_of-later fuel year rest le) (
      skip_year year rest le (
        year_of-IsYearOf fuel (suc year) (rest - days_in_year year)
          (omega (arith, days_in_year-positive year))))
]

-- From a day of a later year the search finds that year.
pub year_of-span :
    (years fuel year rest : ℕ)
    → rest < days_in_year (year + years)
    → years < fuel
    → year_of fuel year (span year years + rest) ≡ (year + years, rest)
unfolding span
year_of-span years zero year rest h k = absurd (omega arith)
year_of-span zero (suc fuel) year rest h k =
    rw (add_zero year, zero_add rest) (year_of-here fuel year rest (rw (sym (add_zero year)) h))
year_of-span (suc years) (suc fuel) year rest h k =
    let moved = add_suc year years in
    year_of-later fuel year (days_in_year year + span (suc year) years + rest) (omega arith)
    ∙ rw (cancel (days_in_year year) (span (suc year) years) rest) (
        year_of-span years fuel (suc year) rest (rw (sym moved) h) (omega arith)
        ∙ ap (λ y. (y, rest)) (sym moved))

-- What a search for a month finds.
pub record IsMonthOf (lengths : List ℕ) (rest : ℕ) (found : ℕ × ℕ) : Type 0 where
  pub within : found.0 < length lengths
  pub left : found.1 < length_of lengths found.0
  pub total : rest ≡ days_before lengths found.0 + found.1

pub month_of-IsMonthOf :
    (lengths : List ℕ) (rest : ℕ)
    → rest < days_before lengths (length lengths)
    → IsMonthOf lengths rest (month_of lengths rest)
unfolding month_of
month_of-IsMonthOf [] rest h = absurd (omega arith)
month_of-IsMonthOf (n ∷ lengths) rest h = elim (lt_or_le rest n) [
  | inl lt ↦ rw (lt→ltb rest n lt) (record { within = omega arith; left = lt; total = omega arith })
  | inr le ↦
      let later = month_of-IsMonthOf lengths (rest - n) (omega arith) in
      rw (le→ltb_not rest n le) (record {
        within = omega (arith, later.within);
        left = later.left;
        total = omega (arith, later.total);
      })
]

pub month_of-days_before :
    (lengths : List ℕ) (month rest : ℕ)
    → rest < length_of lengths month
    → month_of lengths (days_before lengths month + rest) ≡ (month, rest)
unfolding month_of
month_of-days_before [] month rest h = absurd (omega arith)
month_of-days_before (n ∷ lengths) zero rest h = rw (zero_add rest, lt→ltb rest n h) refl
month_of-days_before (n ∷ lengths) (suc month) rest h =
    rw
      (
        le→ltb_not (n + days_before lengths month + rest) n (omega arith),
        cancel n (days_before lengths month) rest,
        month_of-days_before lengths month rest h,
      )
      refl

pub all_months :
    (year : ℕ) → days_before (month_lengths year) (length (month_lengths year)) ≡ days_in_year year
all_months year = elim (Bool-cases (is_leap year)) [ inl e ↦ rw e refl | inr e ↦ rw e refl ]
