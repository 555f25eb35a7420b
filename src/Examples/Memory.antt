-- ===== src/Examples/Memory.antt =====
-- Choices on an empty device.
use ledgerly_app.Base.{get, put, arith, ◌≡◌, refl, ◌∷◌, [], List, Text, codes, none}
use ledgerly_app.Base.Sorting.{sort_by}
use ledgerly_app.Memory.{
  expense, mode_eq, Storage, writable, remember_category, order_categories_by_recency, read_memory,
  write_memory,
}
use ledgerly_app.Memory.Recency.{recent, IsTidy, remember_category-IsTidy}

abbrev empty : Storage
empty = writable none

abbrev after_two : Storage
after_two =
    remember_category expense (codes "Dining") (remember_category expense (codes "Travel") empty)

newest_first : recent expense after_two ≡ codes "Dining" ∷ codes "Travel" ∷ []
unfolding remember_category read_memory write_memory get put
newest_first = refl

empty-IsTidy : IsTidy empty
unfolding read_memory
empty-IsTidy mode = (tt, omega arith)

remember_category-IsTidy_example : IsTidy (remember_category expense (codes "Dining") empty)
remember_category-IsTidy_example =
    remember_category-IsTidy expense (codes "Dining") empty empty-IsTidy

abbrev offered : List Text
offered = codes "Fees" ∷ codes "Travel" ∷ codes "Dining" ∷ []

abbrev same_name : Text → Text
same_name name = name

by_recency :
    order_categories_by_recency same_name expense offered after_two
    ≡ codes "Dining" ∷ codes "Travel" ∷ codes "Fees" ∷ []
unfolding order_categories_by_recency remember_category read_memory write_memory get put sort_by
by_recency = refl
