-- ===== src/Base/Doubles.antt =====
-- Natural numbers as an IEEE 754 double holds them, below 2 ^ 1024.
use ledgerly_app.Base.{
  true, refl, ℕ, zero, suc, ◌+◌, ◌*◌, ◌/◌, ◌%◌, ◌≤◌, ◌≡◌, ◌&&◌, ◌||◌, ltb, leb, ◌==◌, nat_eq,
  if◌then◌else◌, arith, Bool,
}

-- `2 ^ 53`: up to it every natural number is a double.
abbrev pub exact_limit : ℕ
exact_limit = 9_007_199_254_740_992

-- The distance of the doubles around `n`; a double has an exponent below 1024, so that 971 doublings
-- are enough.
unfoldable pub spacing : ℕ → ℕ → ℕ → ℕ
spacing zero unit n = unit
spacing (suc fuel) unit n =
    let wider = spacing fuel (2 * unit) n in if ltb n (unit * exact_limit) then unit else wider

-- Between two doubles the nearer one, and the even one of two as near.
abbrev pub rounds_up : ℕ → ℕ → Bool
rounds_up unit n = ltb unit (2 * (n % unit)) || (2 * (n % unit) == unit && n / unit % 2 == 1)

abbrev pub nearest : ℕ → ℕ → ℕ
nearest unit n = if rounds_up unit n then (n / unit + 1) * unit else n / unit * unit

unfoldable pub to_double : ℕ → ℕ
unfolding spacing
to_double n = if leb n exact_limit then n else nearest (spacing 971 1 n) n

-- The sum of two doubles.
unfoldable pub add_double : ℕ → ℕ → ℕ
unfolding to_double
add_double m n = to_double (m + n)

leb_le : (m n : ℕ) → m ≤ n → leb m n ≡ true
leb_le m n h = ground arith

pub add_double-exact : (m n : ℕ) → m + n ≤ exact_limit → add_double m n ≡ m + n
unfolding add_double
add_double-exact m n h = rw (leb_le (m + n) exact_limit h) refl
