-- ===== src/Base/Tokens.antt =====
-- Closures told apart by numbers: the list of those that are still live.
use mathlib.Core.Path.{◌≡◌, refl}
use mathlib.Core.Bool.{true, false, not}
use mathlib.Core.Logic.{inl, inr}
use mathlib.Core.List.{List, [], ◌∷◌, ◌++◌}
use Prim.Native.Nat.{ℕ, suc, ◌<◌}
use native.Mathlib.Omega.{arith}
use ledgerly_app.Base.Tests.{if◌then◌else◌, ◌==◌, nat_eq, Bool-cases}
use ledgerly_app.Base.Lists.{All, filter, length}
use ledgerly_app.Base.Maps.{has}

abbrev pub Distinct : List ℕ → Type 0
Distinct [] = Unit
Distinct (x ∷ xs) = (has x xs ≡ false) × Distinct xs

abbrev pub without : ℕ → List ℕ → List ℕ
without a xs = filter (λ b. not (b == a)) xs

pub has-fresh : (n : ℕ) (xs : List ℕ) → All (λ a. a < n) xs → has n xs ≡ false
unfolding has
has-fresh n [] h = refl
has-fresh n (x ∷ xs) h = ground (arith, has-fresh n xs h.1)

pub without-absent : (a : ℕ) (xs : List ℕ) → has a xs ≡ false → without a xs ≡ xs
unfolding has
without-absent a [] h = refl
without-absent a (x ∷ xs) h = ground (arith, without-absent a xs)

pub has-without :
    (a b : ℕ) (xs : List ℕ) → has b (without a xs) ≡ (if a == b then false else has b xs)
unfolding has
has-without a b [] = ground arith
has-without a b (x ∷ xs) = ground (arith, has-without a b xs)

pub length-without :
    (a : ℕ) (xs : List ℕ) → Distinct xs → has a xs ≡ true → suc (length (without a xs)) ≡ length xs
unfolding has
length-without a [] d h = cc
length-without a (x ∷ xs) d h = ground (arith, length-without a xs d.1, without-absent a xs)

pub Distinct-without : (a : ℕ) (xs : List ℕ) → Distinct xs → Distinct (without a xs)
Distinct-without a [] d = tt
Distinct-without a (x ∷ xs) d = elim (Bool-cases (x == a)) [
  | inl same ↦ rw same (Distinct-without a xs d.1)
  | inr other ↦ rw other (ground (arith, has-without a x xs, d.0), Distinct-without a xs d.1)
]

pub without-All : (P : ℕ → Type 0) (a : ℕ) (xs : List ℕ) → All P xs → All P (without a xs)
without-All P a [] h = tt
without-All P a (x ∷ xs) h = elim (Bool-cases (x == a)) [
  | inl same ↦ rw same (without-All P a xs h.1)
  | inr other ↦ rw other (h.0, without-All P a xs h.1)
]

pub has-append_one :
    (a b : ℕ) (xs : List ℕ) → has a (xs ++ b ∷ []) ≡ (if b == a then true else has a xs)
unfolding has
has-append_one a b [] = ground arith
has-append_one a b (x ∷ xs) = ground (arith, has-append_one a b xs)

pub Distinct-append_absent :
    (n : ℕ) (xs : List ℕ) → has n xs ≡ false → Distinct xs → Distinct (xs ++ n ∷ [])
unfolding has
Distinct-append_absent n [] f d = (refl, tt)
Distinct-append_absent n (x ∷ xs) f d =
    (ground (arith, has-append_one x n xs), Distinct-append_absent n xs (ground arith) d.1)
