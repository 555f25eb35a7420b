-- ===== src/Examples/Categories.antt =====
-- The categories of the demo, with names compared by their lengths.
use ledgerly_app.Base.{
  none, ℕ, ◌≡◌, refl, ◌∷◌, [], List, Text, Bool, true, false, codes, length, leb, arith, text_eq,
}
use ledgerly_app.Base.Sorting.{sort_by}
use ledgerly_app.Categories.{TransactionCategory, expense, selectable_transaction_category_names}
use ledgerly_app.Categories.Ordering.{IsOrder}

abbrev by_length : Text → Text → Bool
by_length x y = leb (length x) (length y)

by_length-IsOrder : IsOrder by_length
by_length-IsOrder = record { total = λ x y h. ground (arith); trans = λ x y z h k. ground (arith) }

abbrev plain_category : Text → ℕ → Bool → TransactionCategory
plain_category name sort_order is_active = record {
  id = name;
  transaction_type = expense;
  name = name;
  description = none;
  icon = none;
  color = none;
  sort_order = sort_order;
  is_active = is_active;
  usage_count = none;
}

abbrev three_categories : List TransactionCategory
three_categories =
    plain_category (codes "Travel") 2 true
    ∷ plain_category (codes "Old") 1 false
    ∷ plain_category (codes "Gift") 2 true
    ∷ []

offered :
    selectable_transaction_category_names by_length three_categories
    ≡ codes "Gift" ∷ codes "Travel" ∷ []
unfolding selectable_transaction_category_names sort_by
offered = refl
