-- ===== src/Dates/Texts.antt =====
-- The texts of dates: what is read, and that what is printed is read back.
use ledgerly_app.Base.{
  ℕ, ◌+◌, ◌-◌, ◌*◌, ◌/◌, ◌≤◌, ◌<◌, ◌≡◌, ◌↔◌, refl, sym, ap, ◌∙◌, Bool, true, false, ◌&&◌, Option,
  none, some, [], ◌∷◌, ◌++◌, Text, codes, arith, inl, inr, all, is_digit, ◌==◌, nat_eq, nat_beq_iff,
  if◌then◌else◌,
}
use ledgerly_app.Base.Decimal.{decimal, pad_start, digits_value}
use ledgerly_app.Dates.Scan.{lt_or_le}
use ledgerly_app.Dates.Printing.{
  digit, decimal-one, decimal-two, decimal-three, decimal-four, pad-two, date_fields-digits,
}
use ledgerly_app.Dates.DateOnly.{Parts, date_fields, is_real, keep_real, pad}

-- YYYY-MM-DD
abbrev pub written : Parts → Text
written p =
    pad_start 4 (decimal p.year)
    ++ codes "-"
    ++ pad_start 2 (decimal p.month)
    ++ codes "-"
    ++ pad_start 2 (decimal p.day)

four_of_same :
    {a b c d e f g h : ℕ} → a ≡ e → b ≡ f → c ≡ g → d ≡ h → a ∷ b ∷ c ∷ d ∷ [] ≡ e ∷ f ∷ g ∷ h ∷ []
four_of_same p q r s = λ i. p i ∷ q i ∷ r i ∷ s i ∷ []

four-padded :
    (n : ℕ)
    → n < 10000
    → pad_start 4 (decimal n)
      ≡ digit (n / 10 / 10 / 10) ∷ digit (n / 10 / 10) ∷ digit (n / 10) ∷ digit n ∷ []
unfolding pad_start
four-padded n h = elim (lt_or_le n 10) [
  | inl lt ↦ rw (decimal-one n lt) (four_of_same (omega arith) (omega arith) (omega arith) refl)
  | inr le ↦ elim (lt_or_le n 100) [
    | inl lt ↦ rw (decimal-two n le lt) (four_of_same (omega arith) (omega arith) refl refl)
    | inr le2 ↦ elim (lt_or_le n 1000) [
      | inl lt ↦ rw (decimal-three n le2 lt) (four_of_same (omega arith) refl refl refl)
      | inr le3 ↦ rw (decimal-four n le3 h) refl
    ]
  ]
]

pub some_injective : {p q : Parts} → some p ≡ some q → p ≡ q
some_injective e = grind arith

kept_if :
    (b : Bool) (q p : Parts)
    → (if b then some q else none) ≡ some p
    → (some q ≡ some p) × (b ≡ true)
kept_if true q p h = (h, refl)
kept_if false q p h = ground arith

keep_if :
    (b : Bool) (q p : Parts) → some q ≡ some p → b ≡ true → (if b then some q else none) ≡ some p
keep_if b q p h e = rw e h

pub keep_real-some :
    (o : Option Parts) (p : Parts) → (keep_real o ≡ some p) ↔ ((o ≡ some p) × (is_real p ≡ true))
unfolding keep_real
keep_real-some none p = ground arith
keep_real-some (some q) p = (
  λ h.
      let kept = kept_if (is_real q) q p h in
      (kept.0, sym (ap is_real (some_injective kept.0)) ∙ kept.1),
  λ h. keep_if (is_real q) q p h.0 (ap is_real (some_injective h.0) ∙ h.1),
)

-- A text that is made of the digits of a date.
abbrev pub IsWritten : Text → Parts → Type 0
IsWritten s p = (p.year < 10000) × (p.month < 100) × (p.day < 100) × (s ≡ written p)

digit_bounds : (c : ℕ) → is_digit c ≡ true → (b'0' ≤ c) × (c ≤ b'9')
digit_bounds c h = ground arith

two-padded : (n : ℕ) → n < 100 → pad_start 2 (decimal n) ≡ digit (n / 10) ∷ digit n ∷ []
unfolding pad
two-padded n h = pad-two n h

pub written-digits :
    (p : Parts)
    → p.year < 10000
    → p.month < 100
    → p.day < 100
    → written p
      ≡ digit (p.year / 10 / 10 / 10)
        ∷ digit (p.year / 10 / 10)
        ∷ digit (p.year / 10)
        ∷ digit p.year
        ∷ b'-'
        ∷ digit (p.month / 10)
        ∷ digit p.month
        ∷ b'-'
        ∷ digit (p.day / 10)
        ∷ digit p.day
        ∷ []
written-digits p y m d = rw (four-padded p.year y, two-padded p.month m, two-padded p.day d) refl

-- The digits of a number of two and of four digits.
IsTwo : ℕ → ℕ → ℕ → Type 0
IsTwo a b n = (n < 100) × (a ≡ digit (n / 10)) × (b ≡ digit n)

units-IsTwo :
    (a b n : ℕ)
    → is_digit a ≡ true
    → is_digit b ≡ true
    → (0 + (a - b'0')) * 10 + (b - b'0') ≡ n
    → IsTwo a b n
unfolding IsTwo
units-IsTwo a b n h k e =
    let one = digit_bounds a h in
    let two = digit_bounds b k in (omega arith, omega arith, omega arith)

IsFour : ℕ → ℕ → ℕ → ℕ → ℕ → Type 0
IsFour a b c d n =
    (n < 10000)
    × (a ≡ digit (n / 10 / 10 / 10))
    × (b ≡ digit (n / 10 / 10))
    × (c ≡ digit (n / 10))
    × (d ≡ digit n)

units-IsFour :
    (a b c d n : ℕ)
    → is_digit a ≡ true
    → is_digit b ≡ true
    → is_digit c ≡ true
    → is_digit d ≡ true
    → (((0 + (a - b'0')) * 10 + (b - b'0')) * 10 + (c - b'0')) * 10 + (d - b'0') ≡ n
    → IsFour a b c d n
unfolding IsFour
units-IsFour a b c d n h k l m e =
    let one = digit_bounds a h in
    let two = digit_bounds b k in
    let three = digit_bounds c l in
    let four = digit_bounds d m in (omega arith, omega arith, omega arith, omega arith, omega arith)

ten_of_same :
    {a b c d m e f n g h a' b' c' d' m' e' f' n' g' h' : ℕ}
    → a ≡ a'
    → b ≡ b'
    → c ≡ c'
    → d ≡ d'
    → m ≡ m'
    → e ≡ e'
    → f ≡ f'
    → n ≡ n'
    → g ≡ g'
    → h ≡ h'
    → a ∷ b ∷ c ∷ d ∷ m ∷ e ∷ f ∷ n ∷ g ∷ h ∷ []
      ≡ a' ∷ b' ∷ c' ∷ d' ∷ m' ∷ e' ∷ f' ∷ n' ∷ g' ∷ h' ∷ []
ten_of_same p q r s t u v w x y =
    λ i. p i ∷ q i ∷ r i ∷ s i ∷ t i ∷ u i ∷ v i ∷ w i ∷ x i ∷ y i ∷ []

abbrev tests : ℕ → ℕ → ℕ → ℕ → ℕ → ℕ → ℕ → ℕ → ℕ → ℕ → Bool
tests a b c d m e f n g h =
    all is_digit (a ∷ b ∷ c ∷ d ∷ e ∷ f ∷ g ∷ h ∷ []) && m == b'-' && n == b'-'

tests-true :
    (a b c d m e f n g h : ℕ)
    → tests a b c d m e f n g h ≡ true
    → (is_digit a ≡ true)
      × (is_digit b ≡ true)
      × (is_digit c ≡ true)
      × (is_digit d ≡ true)
      × (is_digit e ≡ true)
      × (is_digit f ≡ true)
      × (is_digit g ≡ true)
      × (is_digit h ≡ true)
      × (m ≡ b'-')
      × (n ≡ b'-')
tests-true a b c d m e f n g h t = ground (arith, nat_beq_iff m b'-', nat_beq_iff n b'-')

date_fields-ten :
    (a b c d m e f n g h : ℕ) (p : Parts)
    → date_fields (a ∷ b ∷ c ∷ d ∷ m ∷ e ∷ f ∷ n ∷ g ∷ h ∷ []) ≡ some p
    → IsWritten (a ∷ b ∷ c ∷ d ∷ m ∷ e ∷ f ∷ n ∷ g ∷ h ∷ []) p
unfolding date_fields digits_value IsTwo IsFour
date_fields-ten a b c d m e f n g h p k =
    let kept = kept_if (tests a b c d m e f n g h) _ p k in
    let digits = tests-true a b c d m e f n g h kept.1 in
    let same = some_injective kept.0 in
    let year =
      units-IsFour a b c d p.year digits.0 digits.1 digits.2 digits.3 (ap (λ q. q.year) same) in
    let month = units-IsTwo e f p.month digits.4 digits.5 (ap (λ q. q.month) same) in
    let day = units-IsTwo g h p.day digits.6 digits.7 (ap (λ q. q.day) same) in
    (
      year.0,
      month.0,
      day.0,
      ten_of_same year.1 year.2 year.3 year.4 digits.8 month.1 month.2 digits.9 day.1 day.2
          ∙ sym (written-digits p year.0 month.0 day.0),
    )

date_fields-IsWritten : (s : Text) (p : Parts) → date_fields s ≡ some p → IsWritten s p
unfolding date_fields
date_fields-IsWritten [] p k = ground arith
date_fields-IsWritten (a ∷ []) p k = ground arith
date_fields-IsWritten (a ∷ b ∷ []) p k = ground arith
date_fields-IsWritten (a ∷ b ∷ c ∷ []) p k = ground arith
date_fields-IsWritten (a ∷ b ∷ c ∷ d ∷ []) p k = ground arith
date_fields-IsWritten (a ∷ b ∷ c ∷ d ∷ m ∷ []) p k = ground arith
date_fields-IsWritten (a ∷ b ∷ c ∷ d ∷ m ∷ e ∷ []) p k = ground arith
date_fields-IsWritten (a ∷ b ∷ c ∷ d ∷ m ∷ e ∷ f ∷ []) p k = ground arith
date_fields-IsWritten (a ∷ b ∷ c ∷ d ∷ m ∷ e ∷ f ∷ n ∷ []) p k = ground arith
date_fields-IsWritten (a ∷ b ∷ c ∷ d ∷ m ∷ e ∷ f ∷ n ∷ g ∷ []) p k = ground arith
date_fields-IsWritten (a ∷ b ∷ c ∷ d ∷ m ∷ e ∷ f ∷ n ∷ g ∷ h ∷ []) p k =
    date_fields-ten a b c d m e f n g h p k
date_fields-IsWritten (a ∷ b ∷ c ∷ d ∷ m ∷ e ∷ f ∷ n ∷ g ∷ h ∷ i ∷ s) p k = ground arith

-- What the pattern reads.
pub date_fields_iff : (s : Text) (p : Parts) → (date_fields s ≡ some p) ↔ IsWritten s p
date_fields_iff s p = (
  λ h. date_fields-IsWritten s p h,
  λ h.
      ap date_fields (h.3 ∙ written-digits p h.0 h.1 h.2)
      ∙ date_fields-digits p.year p.month p.day h.0 h.1 h.2,
)
