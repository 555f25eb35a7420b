-- ===== src/Categories/Ordering.antt =====
-- The order in which categories are offered.
use ledgerly_app.Base.{
  ℕ, ◌+◌, ◌<◌, ◌≡◌, refl, ◌∙◌, ap, Bool, true, false, List, [], ◌∷◌, map, Text, arith, All, filter,
  nat_eq,
}
use ledgerly_app.Base.Sorting.{IsSorted, sort_by-IsSorted, sort_by_of_IsSorted, filter-sort_by}
use ledgerly_app.Categories.{
  TransactionCategory, TransactionCategoryMode, category_le, ordered_transaction_categories,
  selectable_transaction_category_names, demo_from, demo_category, demo_transaction_categories,
  categories_for_transaction_mode,
}

-- A comparison of names that is total and transitive, as `localeCompare` is documented to be.
pub record IsOrder (locale_le : Text → Text → Bool) : Type 0 where
  pub total : (x y : Text) → locale_le x y ≡ false → locale_le y x ≡ true
  pub trans : (x y z : Text) → locale_le x y ≡ true → locale_le y z ≡ true → locale_le x z ≡ true

module _ (locale_le : Text → Text → Bool) (order : IsOrder locale_le) where
  category_total :
      (x y : TransactionCategory)
      → category_le locale_le x y ≡ false
      → category_le locale_le y x ≡ true
  category_total x y h = ground (arith, order.total x.name y.name)

  category_trans :
      (x y z : TransactionCategory)
      → category_le locale_le x y ≡ true
      → category_le locale_le y z ≡ true
      → category_le locale_le x z ≡ true
  category_trans x y z h k = ground (arith, order.trans x.name y.name z.name)

  -- The categories that are offered come in the order of their `sortOrder` and, within one, of their
  -- names; leaving out inactive ones before sorting instead of after it gives the same names.
  pub selectable_order :
      (categories : List TransactionCategory)
      → IsSorted (category_le locale_le) (ordered_transaction_categories locale_le categories)
        × (selectable_transaction_category_names locale_le categories
            ≡ map
                (λ c. c.name)
                (ordered_transaction_categories locale_le (filter (λ c. c.is_active) categories)))
  unfolding selectable_transaction_category_names
  selectable_order categories = (
    sort_by-IsSorted (category_le locale_le) category_total category_trans categories,
    ap (map (λ c. c.name)) (
        filter-sort_by (category_le locale_le) (λ c. c.is_active) category_total category_trans
          categories),
  )

module _ (locale_le : Text → Text → Bool) (mode : TransactionCategoryMode) where
  demo_from-later :
      (k n : ℕ) (name : Text) (names : List Text)
      → k < n
      → All
          (λ c. category_le locale_le (demo_category mode k name) c ≡ true)
          (demo_from mode n names)
  unfolding demo_from
  demo_from-later k n name [] h = tt
  demo_from-later k n name (other ∷ names) h =
      (ground arith, demo_from-later k (n + 1) name names (omega arith))

  demo_from-IsSorted :
      (n : ℕ) (names : List Text) → IsSorted (category_le locale_le) (demo_from mode n names)
  unfolding demo_from
  demo_from-IsSorted n [] = tt
  demo_from-IsSorted n (name ∷ names) =
      (demo_from-later n (n + 1) name names (omega arith), demo_from-IsSorted (n + 1) names)

  demo_names :
      (n : ℕ) (names : List Text)
      → map (λ c. c.name) (filter (λ c. c.is_active) (demo_from mode n names)) ≡ names
  unfolding demo_from
  demo_names n [] = refl
  demo_names n (name ∷ names) = ap (◌∷◌ name) (demo_names (n + 1) names)

  -- In the demo the offered names are those of the mode, in the order in which they are written,
  -- whatever the locale.
  pub selectable-demo :
      selectable_transaction_category_names locale_le (demo_transaction_categories mode)
      ≡ categories_for_transaction_mode mode
  unfolding selectable_transaction_category_names demo_transaction_categories
  selectable-demo =
      ap (λ cs. map (λ c. c.name) (filter (λ c. c.is_active) cs))
        (sort_by_of_IsSorted (category_le locale_le) _ (demo_from-IsSorted 0 names))
      ∙ demo_names 0 names
    where
      names : List Text
      names = categories_for_transaction_mode mode
