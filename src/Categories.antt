-- ===== src/Categories.antt =====
-- web/src/domain/transaction-categories.ts: the kinds of transaction, their categories and IDs.
pub mod Previews
pub mod Ordering
use ledgerly_app.Base.{
  ℕ, suc, ◌+◌, min, Bool, true, false, not, ◌||◌, Option, none, some, List, [], ◌∷◌, ◌++◌, map,
  Text, codes, filter, has, ltb, ◌==◌, nat_eq, text_eq, if◌then◌else◌,
}
use ledgerly_app.Base.Decimal.{decimal, pad_start}
use ledgerly_app.Base.Numbers.{Number, safe_at_least}
use ledgerly_app.Base.Sorting.{sort_by}

pub data TransactionCategoryMode : Type 0 where
  expense income transfer split : TransactionCategoryMode

abbrev pub transaction_category_modes : List TransactionCategoryMode
transaction_category_modes = expense ∷ income ∷ transfer ∷ split ∷ []

pub record TransactionSequenceSetting : Type 0 where
  pub transaction_type : TransactionCategoryMode
  pub auto_generate : Bool
  pub next_number : Number
  pub minimum_digits : Number
  pub preview : Text
  pub minimum_available_next_number : Number

pub record TransactionCategory : Type 0 where
  pub id : Text
  pub transaction_type : TransactionCategoryMode
  pub name : Text
  pub description : Option Text
  pub icon : Option Text
  pub color : Option Text
  pub sort_order : ℕ
  pub is_active : Bool
  pub usage_count : Option ℕ

abbrev pub expense_categories : List Text
expense_categories =
    codes "General"
    ∷ codes "Groceries"
    ∷ codes "Dining"
    ∷ codes "Transport"
    ∷ codes "Utilities"
    ∷ codes "Housing"
    ∷ codes "Health"
    ∷ codes "Shopping"
    ∷ codes "Entertainment"
    ∷ codes "Travel"
    ∷ codes "Fees"
    ∷ []

abbrev pub income_categories : List Text
income_categories =
    codes "Salary"
    ∷ codes "Freelance"
    ∷ codes "Business"
    ∷ codes "Bonus"
    ∷ codes "Interest"
    ∷ codes "Investment"
    ∷ codes "Refund"
    ∷ codes "Gift"
    ∷ codes "Other income"
    ∷ []

abbrev pub transfer_categories : List Text
transfer_categories = codes "Transfer" ∷ []

abbrev pub split_categories : List Text
split_categories = codes "Split expense" ∷ codes "Dining" ∷ codes "Travel" ∷ codes "Household" ∷ []

unfoldable pub categories_for_transaction_mode : TransactionCategoryMode → List Text
categories_for_transaction_mode income = income_categories
categories_for_transaction_mode split = split_categories
categories_for_transaction_mode transfer = transfer_categories
categories_for_transaction_mode expense = expense_categories

-- `Math.min(18, Math.max(1, minimumDigits))`, or 4.
abbrev pub normalized_digits : Number → ℕ
normalized_digits minimum_digits = min 18 (safe_at_least 1 4 minimum_digits)

abbrev pub normalized_number : Number → ℕ
normalized_number next_number = safe_at_least 1 1 next_number

unfoldable pub transaction_sequence_preview : Number → Number → Text
transaction_sequence_preview next_number minimum_digits =
    pad_start (normalized_digits minimum_digits) (decimal (normalized_number next_number))

unfoldable pub demo_transaction_sequences : List TransactionSequenceSetting
demo_transaction_sequences =
    map
      (λ mode. record {
        transaction_type = mode;
        auto_generate = true;
        next_number = Number.whole 1;
        minimum_digits = Number.whole 4;
        preview = codes "0001";
        minimum_available_next_number = Number.whole 1;
      })
      transaction_category_modes

abbrev pub mode_text : TransactionCategoryMode → Text
mode_text expense = codes "expense"
mode_text income = codes "income"
mode_text transfer = codes "transfer"
mode_text split = codes "split"

abbrev pub demo_category : TransactionCategoryMode → ℕ → Text → TransactionCategory
demo_category mode sort_order name = record {
  id = codes "demo-" ++ mode_text mode ++ b'-' ∷ decimal sort_order;
  transaction_type = mode;
  name = name;
  description = none;
  icon = none;
  color = none;
  sort_order = sort_order;
  is_active = true;
  usage_count = some 0;
}

-- `map` with the index as its second argument, from `index` on.
unfoldable pub demo_from : TransactionCategoryMode → ℕ → List Text → List TransactionCategory
demo_from mode index [] = []
demo_from mode index (name ∷ names) =
    demo_category mode index name ∷ demo_from mode (index + 1) names

unfoldable pub demo_transaction_categories : TransactionCategoryMode → List TransactionCategory
unfolding demo_from categories_for_transaction_mode
demo_transaction_categories mode = demo_from mode 0 (categories_for_transaction_mode mode)

-- `locale_le x y` is `x.localeCompare(y) <= 0`.
module _ (locale_le : Text → Text → Bool) where
  -- `left.sortOrder - right.sortOrder || left.name.localeCompare(right.name)` is not positive.
  abbrev pub category_le : TransactionCategory → TransactionCategory → Bool
  category_le left right =
      if ltb left.sort_order right.sort_order
      then true
      else if left.sort_order == right.sort_order
      then locale_le left.name right.name
      else false

  unfoldable pub ordered_transaction_categories :
      List TransactionCategory → List TransactionCategory
  ordered_transaction_categories categories = sort_by category_le categories

  unfoldable pub selectable_transaction_category_names : List TransactionCategory → List Text
  unfolding ordered_transaction_categories
  selectable_transaction_category_names categories =
      map (λ c. c.name) (filter (λ c. c.is_active) (ordered_transaction_categories categories))

-- What `transactionCategoryModeFor` reads of a transaction.
pub record CategorizedTransaction : Type 0 where
  pub raw_type : Option Text
  pub direction : Option Text
  pub has_splits : Option Bool
  pub transaction_id_scope : Option TransactionCategoryMode

-- `value === text`, for a value that may be undefined.
abbrev pub is_text : Text → Option Text → Bool
is_text text none = false
is_text text (some value) = value == text

abbrev is_true : Option Bool → Bool
is_true (some true) = true
is_true _ = false

abbrev pub mode_by_type : CategorizedTransaction → TransactionCategoryMode
mode_by_type t =
    if is_true t.has_splits || is_text (codes "split") t.raw_type
    then split
    else if is_text (codes "transfer") t.raw_type
    then transfer
    else if is_text (codes "income") t.raw_type
        || is_text (codes "refund") t.raw_type
        || is_text (codes "reimbursement") t.raw_type
        || is_text (codes "credit") t.direction
    then income
    else expense

unfoldable pub transaction_category_mode_for : CategorizedTransaction → TransactionCategoryMode
transaction_category_mode_for t = elim t.transaction_id_scope [
  | some scope ↦ scope
  | none ↦ mode_by_type t
]

-- `categories[0] ?? ""`
abbrev pub first_or_empty : List Text → Text
first_or_empty [] = []
first_or_empty (c ∷ _) = c

unfoldable pub category_for_transaction_mode : TransactionCategoryMode → Text → Text
category_for_transaction_mode mode current =
    let categories = categories_for_transaction_mode mode in
    if has current categories then current else first_or_empty categories
