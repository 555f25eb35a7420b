-- ===== src/Dates/Printing.antt =====
-- A date that is printed is read back, where its year has four digits.
use ledgerly_app.Base.{
  ℕ, suc, ◌+◌, ◌-◌, ◌*◌, ◌/◌, ◌%◌, ◌≤◌, ◌<◌, ◌≡◌, refl, ap, ◌∙◌, true, Option, some, Option, [],
  ◌∷◌, ◌++◌, arith, is_digit, nat_eq, lt→ltb, inl, inr,
}
use ledgerly_app.Base.Decimal.{decimal, decimal_fuel, digits_value, pad_start}
use ledgerly_app.Dates.Scan.{le→ltb_not, lt_or_le}
use ledgerly_app.Dates.DateOnly.{Parts, date_fields, pad}

abbrev pub digit : ℕ → ℕ
digit n = n % 10 + b'0'

decimal_fuel-digit : (fuel n : ℕ) → n < 10 → decimal_fuel (suc fuel) n ≡ digit n ∷ []
unfolding decimal_fuel
decimal_fuel-digit fuel n h = rw (lt→ltb n 10 h) (ap (λ d. (d + b'0') ∷ []) (omega arith))

decimal_fuel-more :
    (fuel n : ℕ) → 10 ≤ n → decimal_fuel (suc fuel) n ≡ decimal_fuel fuel (n / 10) ++ digit n ∷ []
unfolding decimal_fuel
decimal_fuel-more fuel n h = rw (le→ltb_not n 10 h) refl

decimal_fuel-four :
    (fuel n : ℕ)
    → 1000 ≤ n
    → n < 10000
    → decimal_fuel (suc (suc (suc (suc fuel)))) n
      ≡ digit (n / 10 / 10 / 10) ∷ digit (n / 10 / 10) ∷ digit (n / 10) ∷ digit n ∷ []
decimal_fuel-four fuel n h k =
    decimal_fuel-more _ n (omega arith)
    ∙ ap (◌++ (digit n ∷ [])) (
        decimal_fuel-more _ (n / 10) (omega arith)
        ∙ ap (◌++ (digit (n / 10) ∷ [])) (
            decimal_fuel-more _ (n / 10 / 10) (omega arith)
            ∙ ap (◌++ (digit (n / 10 / 10) ∷ []))
                (decimal_fuel-digit fuel (n / 10 / 10 / 10) (omega arith))))

pub decimal-four :
    (n : ℕ)
    → 1000 ≤ n
    → n < 10000
    → decimal n ≡ digit (n / 10 / 10 / 10) ∷ digit (n / 10 / 10) ∷ digit (n / 10) ∷ digit n ∷ []
unfolding decimal
decimal-four n h k =
    let fuel : suc n ≡ suc (suc (suc (suc (n - 3)))) = omega arith in
    ap (λ f. decimal_fuel f n) fuel ∙ decimal_fuel-four (n - 3) n h k

pub decimal-one : (n : ℕ) → n < 10 → decimal n ≡ digit n ∷ []
unfolding decimal
decimal-one n h = decimal_fuel-digit n n h

pub decimal-two : (n : ℕ) → 10 ≤ n → n < 100 → decimal n ≡ digit (n / 10) ∷ digit n ∷ []
unfolding decimal
decimal-two n h k =
    let fuel : suc n ≡ suc (suc (n - 1)) = omega arith in
    ap (λ f. decimal_fuel f n) fuel
    ∙ decimal_fuel-more (suc (n - 1)) n h
    ∙ ap (◌++ (digit n ∷ [])) (decimal_fuel-digit (n - 1) (n / 10) (omega arith))

pub decimal-three :
    (n : ℕ) → 100 ≤ n → n < 1000 → decimal n ≡ digit (n / 10 / 10) ∷ digit (n / 10) ∷ digit n ∷ []
unfolding decimal
decimal-three n h k =
    let fuel : suc n ≡ suc (suc (suc (n - 2))) = omega arith in
    ap (λ f. decimal_fuel f n) fuel
    ∙ decimal_fuel-more (suc (suc (n - 2))) n (omega arith)
    ∙ ap (◌++ (digit n ∷ [])) (
        decimal_fuel-more (suc (n - 2)) (n / 10) (omega arith)
        ∙ ap (◌++ (digit (n / 10) ∷ [])) (decimal_fuel-digit (n - 2) (n / 10 / 10) (omega arith)))

pub pad-two : (n : ℕ) → n < 100 → pad n ≡ digit (n / 10) ∷ digit n ∷ []
unfolding pad pad_start
pad-two n h = elim (lt_or_le n 10) [
  | inl lt ↦ rw (decimal-one n lt) (ap (λ d. d ∷ digit n ∷ []) (omega arith))
  | inr le ↦ rw (decimal-two n le h) refl
]

digit-is_digit : (n : ℕ) → is_digit (digit n) ≡ true
digit-is_digit n = ground arith

two_digits : (n : ℕ) → n < 100 → (0 + (digit (n / 10) - 48)) * 10 + (digit n - 48) ≡ n
two_digits n h = omega arith

four_digits :
    (n : ℕ)
    → n < 10000
    → (((0 + (digit (n / 10 / 10 / 10) - 48)) * 10 + (digit (n / 10 / 10) - 48)) * 10
            + (digit (n / 10) - 48))
          * 10
        + (digit n - 48)
      ≡ n
four_digits n h = omega arith

abbrev fields : ℕ → ℕ → ℕ → Option Parts
fields year month day = some (record { year = year; month = month; day = day })

fields_of_same :
    {y m d year month day : ℕ}
    → y ≡ year
    → m ≡ month
    → d ≡ day
    → fields y m d ≡ fields year month day
fields_of_same e f g = λ i. fields (e i) (f i) (g i)

-- The fields of a date that is written with four digits for the year.
pub date_fields-digits :
    (year month day : ℕ)
    → year < 10000
    → month < 100
    → day < 100
    → date_fields (
        digit (year / 10 / 10 / 10)
        ∷ digit (year / 10 / 10)
        ∷ digit (year / 10)
        ∷ digit year
        ∷ b'-'
        ∷ digit (month / 10)
        ∷ digit month
        ∷ b'-'
        ∷ digit (day / 10)
        ∷ digit day
        ∷ [])
      ≡ some (record { year = year; month = month; day = day })
unfolding date_fields digits_value
date_fields-digits year month day k m d =
    rw
      (
        digit-is_digit (year / 10 / 10 / 10),
        digit-is_digit (year / 10 / 10),
        digit-is_digit (year / 10),
        digit-is_digit year,
        digit-is_digit (month / 10),
        digit-is_digit month,
        digit-is_digit (day / 10),
        digit-is_digit day,
      )
      (fields_of_same (four_digits year k) (two_digits month m) (two_digits day d))
