-- ===== src/Base/Sorting.antt =====
-- `Array.prototype.sort`: the result of a stable sort. `le x y` is "the comparison of x and y is not
-- positive", so that x may stay before y.
use mathlib.Core.Path.{◌≡◌, refl, sym, ap, ◌∙◌}
use mathlib.Core.Bool.{Bool, true, false}
use mathlib.Core.Logic.{inl, inr}
use mathlib.Core.List.{List, [], ◌∷◌, Perm}
use native.Mathlib.Omega.{arith}
use mathlib.Core.List.Perm
use ledgerly_app.Base.Tests.{if◌then◌else◌, Bool-cases}
use ledgerly_app.Base.Lists.{All, All-map, filter}

module _ {ℓ} {A : Type ℓ} (le : A → A → Bool) where
  unfoldable pub insert_by : A → List A → List A
  insert_by x [] = x ∷ []
  insert_by x (y ∷ ys) = if le x y then x ∷ y ∷ ys else y ∷ insert_by x ys

  unfoldable pub sort_by : List A → List A
  unfolding insert_by
  sort_by [] = []
  sort_by (x ∷ xs) = insert_by x (sort_by xs)

  abbrev pub IsSorted : List A → Type ℓ
  IsSorted [] = Unit
  IsSorted (x ∷ xs) = All (λ y. le x y ≡ true) xs × IsSorted xs

  insert_by-perm : (x : A) (ys : List A) → Perm (insert_by x ys) (x ∷ ys)
  unfolding insert_by
  insert_by-perm x [] = Perm.refl _
  insert_by-perm x (y ∷ ys) = elim (Bool-cases (le x y)) [
    | inl before ↦ rw before (Perm.refl _)
    | inr after ↦ rw after (Perm.trans (Perm.cons y (insert_by-perm x ys)) (Perm.swap x y ys))
  ]

  -- Sorting neither loses nor invents an element.
  pub sort_by-perm : (xs : List A) → Perm (sort_by xs) xs
  unfolding sort_by
  sort_by-perm [] = Perm.refl []
  sort_by-perm (x ∷ xs) = Perm.trans (insert_by-perm x (sort_by xs)) (Perm.cons x (sort_by-perm xs))

  insert_by-All {κ} :
      (P : A → Type κ) (x : A) (ys : List A) → P x → All P ys → All P (insert_by x ys)
  unfolding insert_by
  insert_by-All P x [] p h = (p, tt)
  insert_by-All P x (y ∷ ys) p h = elim (Bool-cases (le x y)) [
    | inl before ↦ rw before (p, h)
    | inr after ↦ rw after (h.0, insert_by-All P x ys p h.1)
  ]

  pub sort_by-All {κ} : (P : A → Type κ) (xs : List A) → All P xs → All P (sort_by xs)
  unfolding sort_by
  sort_by-All P [] h = tt
  sort_by-All P (x ∷ xs) h = insert_by-All P x (sort_by xs) h.0 (sort_by-All P xs h.1)

  module _ (total : (x y : A) → le x y ≡ false → le y x ≡ true)
      (trans : (x y z : A) → le x y ≡ true → le y z ≡ true → le x z ≡ true) where
    insert_by-IsSorted : (x : A) (ys : List A) → IsSorted ys → IsSorted (insert_by x ys)
    unfolding insert_by
    insert_by-IsSorted x [] h = (tt, tt)
    insert_by-IsSorted x (y ∷ ys) h = elim (Bool-cases (le x y)) [
      | inl before ↦ rw before ((before, All-map (λ z r. trans x y z before r) ys h.0), h)
      | inr after ↦ rw after (
        insert_by-All (λ z. le y z ≡ true) x ys (total x y after) h.0,
        insert_by-IsSorted x ys h.1,
      )
    ]

    -- With a total and transitive comparison the result is in order.
    pub sort_by-IsSorted : (xs : List A) → IsSorted (sort_by xs)
    unfolding sort_by
    sort_by-IsSorted [] = tt
    sort_by-IsSorted (x ∷ xs) = insert_by-IsSorted x (sort_by xs) (sort_by-IsSorted xs)

  -- A list that is in order is left as it is.
  pub sort_by_of_IsSorted : (xs : List A) → IsSorted xs → sort_by xs ≡ xs
  unfolding sort_by insert_by
  sort_by_of_IsSorted [] h = refl
  sort_by_of_IsSorted (x ∷ []) h = refl
  sort_by_of_IsSorted (x ∷ y ∷ xs) h = rw (sort_by_of_IsSorted (y ∷ xs) h.1, h.0.0)

  module _ (p : A → Bool) (total : (x y : A) → le x y ≡ false → le y x ≡ true)
      (trans : (x y z : A) → le x y ≡ true → le y z ≡ true → le x z ≡ true) where
    insert_by-All_le : (x : A) (ys : List A) → All (λ z. le x z ≡ true) ys → insert_by x ys ≡ x ∷ ys
    unfolding insert_by
    insert_by-All_le x [] h = refl
    insert_by-All_le x (y ∷ ys) h = rw h.0

    All-filter {κ} : (P : A → Type κ) (xs : List A) → All P xs → All P (filter p xs)
    All-filter P [] h = tt
    All-filter P (x ∷ xs) h = elim (Bool-cases (p x)) [
      | inl kept ↦ rw kept (h.0, All-filter P xs h.1)
      | inr gone ↦ rw gone (All-filter P xs h.1)
    ]

    filter-insert_by_kept :
        (x : A) (ys : List A)
        → p x ≡ true
        → IsSorted ys
        → filter p (insert_by x ys) ≡ insert_by x (filter p ys)
    unfolding insert_by
    filter-insert_by_kept x [] h s = rw h
    filter-insert_by_kept x (y ∷ ys) h s = elim (Bool-cases (le x y)) [
      | inl before ↦ rw before (
          rw h (
            sym (
              insert_by-All_le x (filter p (y ∷ ys)) (
                All-filter (λ z. le x z ≡ true) (y ∷ ys)
                  (before, All-map (λ z r. trans x y z before r) ys s.0)))))
      | inr after ↦ rw after (elim (Bool-cases (p y)) [
        | inl kept ↦ rw kept (rw after (ap (◌∷◌ y) (filter-insert_by_kept x ys h s.1)))
        | inr gone ↦ rw gone (filter-insert_by_kept x ys h s.1)
      ])
    ]

    filter-insert_by_gone :
        (x : A) (ys : List A) → p x ≡ false → filter p (insert_by x ys) ≡ filter p ys
    unfolding insert_by
    filter-insert_by_gone x [] h = rw h
    filter-insert_by_gone x (y ∷ ys) h = elim (Bool-cases (le x y)) [
      | inl before ↦ rw before (rw h)
      | inr after ↦ rw after (ground (arith, filter-insert_by_gone x ys h))
    ]

    -- A stable sort commutes with a filter.
    pub filter-sort_by : (xs : List A) → filter p (sort_by xs) ≡ sort_by (filter p xs)
    unfolding sort_by
    filter-sort_by [] = refl
    filter-sort_by (x ∷ xs) = elim (Bool-cases (p x)) [
      | inl kept ↦
          filter-insert_by_kept x (sort_by xs) kept (sort_by-IsSorted total trans xs)
          ∙ rw kept (ap (insert_by x) (filter-sort_by xs))
      | inr gone ↦ filter-insert_by_gone x (sort_by xs) gone ∙ rw gone (filter-sort_by xs)
    ]
