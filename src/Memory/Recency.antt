-- ===== src/Memory/Recency.antt =====
-- What is remembered after a choice, and the order of categories that it gives.
use ledgerly_app.Base.{
  ℕ, zero, suc, ◌≤◌, ◌≡◌, ◌≢◌, refl, true, false, not, Option, none, some, List, [], ◌∷◌, Text,
  arith, filter, take, has, get, put, get-put, Map, length, ◌==◌, text_eq, if◌then◌else◌,
  Bool-cases, inl, inr, length-take,
}
use ledgerly_app.Base.Sorting.{sort_by-perm, sort_by-IsSorted, IsSorted}
use ledgerly_app.Memory.{
  MemoryMode, mode_eq, TransactionMemory, Storage, missing, read_only, writable, read_memory,
  write_memory, remember_category, remembered_account_id, next_recent, recent_in, or_empty,
  max_recent_categories, rank_le, order_categories_by_recency, by_rank, ranks_from, order_by,
}
use mathlib.Core.List.{Perm}
use mathlib.Core.List.Perm

-- The recent names of a mode.
abbrev pub recent : MemoryMode → Storage → List Text
recent mode s = recent_in mode (read_memory s).categories

get-nil : (mode : MemoryMode) → get {V = List Text} mode [] ≡ none
unfolding get
get-nil mode = refl

recent_in-put :
    (mode other : MemoryMode) (names : List Text) (held : Option (Map MemoryMode (List Text)))
    → recent_in other (some (put mode names (or_empty held)))
      ≡ (if mode == other then names else recent_in other held)
recent_in-put mode other names none =
    rw (get-put mode other names [], recent_in)
      (elim (Bool-cases (mode == other)) [
        | inl same ↦ rw same
        | inr different ↦ rw different (rw (get-nil other, recent_in))
      ])
recent_in-put mode other names (some m) =
    rw (get-put mode other names m, recent_in)
      (elim (Bool-cases (mode == other)) [ inl same ↦ rw same | inr different ↦ rw different ])

-- Choosing a category puts it first among the recent ones of its mode, where the storage can be
-- written, and leaves the other modes and the account as they were.
pub remember_category-recent :
    (mode other : MemoryMode) (c : ℕ) (name : Text) (held : Option TransactionMemory)
    → (recent other (remember_category mode (c ∷ name) (writable held)) ≡ (
        if mode == other
        then next_recent (c ∷ name) (recent mode (writable held))
        else recent other (writable held)))
      × (remembered_account_id (remember_category mode (c ∷ name) (writable held))
          ≡ remembered_account_id (writable held))
unfolding remember_category read_memory write_memory remembered_account_id
remember_category-recent mode other c name none =
    (recent_in-put mode other (next_recent (c ∷ name) []) none, refl)
remember_category-recent mode other c name (some m) = (
  recent_in-put mode other (next_recent (c ∷ name) (recent_in mode m.categories)) m.categories,
  refl,
)

-- No name stands twice.
abbrev pub Unrepeated : List Text → Type 0
Unrepeated [] = Unit
Unrepeated (x ∷ xs) = (has x xs ≡ false) × Unrepeated xs

has-filter_other :
    (a b : Text) (xs : List Text) → has b xs ≡ false → has b (filter (λ x. not (x == a)) xs) ≡ false
unfolding has
has-filter_other a b [] h = refl
has-filter_other a b (x ∷ xs) h = ground (arith, has-filter_other a b xs)

has-filter_self : (a : Text) (xs : List Text) → has a (filter (λ x. not (x == a)) xs) ≡ false
unfolding has
has-filter_self a [] = refl
has-filter_self a (x ∷ xs) = ground (arith, has-filter_self a xs)

has-take : (n : ℕ) (a : Text) (xs : List Text) → has a xs ≡ false → has a (take n xs) ≡ false
unfolding has
has-take zero a xs h = refl
has-take (suc n) a [] h = refl
has-take (suc n) a (x ∷ xs) h = ground (arith, has-take n a xs)

Unrepeated-filter :
    (a : Text) (xs : List Text) → Unrepeated xs → Unrepeated (filter (λ x. not (x == a)) xs)
Unrepeated-filter a [] h = tt
Unrepeated-filter a (x ∷ xs) h = elim (Bool-cases (x == a)) [
  | inl same ↦ rw same (Unrepeated-filter a xs h.1)
  | inr other ↦ rw other (has-filter_other a x xs h.0, Unrepeated-filter a xs h.1)
]

Unrepeated-take : (n : ℕ) (xs : List Text) → Unrepeated xs → Unrepeated (take n xs)
Unrepeated-take zero xs h = tt
Unrepeated-take (suc n) [] h = tt
Unrepeated-take (suc n) (x ∷ xs) h = (has-take n x xs h.0, Unrepeated-take n xs h.1)

-- At most five recent names, none of them twice, in each mode.
abbrev pub IsTidy : Storage → Type 0
IsTidy s =
    (mode : MemoryMode)
    → Unrepeated (recent mode s) × (length (recent mode s) ≤ max_recent_categories)

next_recent-tidy :
    (category : Text) (previous : List Text)
    → Unrepeated previous
    → Unrepeated (next_recent category previous)
      × (length (next_recent category previous) ≤ max_recent_categories)
unfolding next_recent
next_recent-tidy category previous h = (
  Unrepeated-take 5 (category ∷ filter (λ x. not (x == category)) previous)
      (has-filter_self category previous, Unrepeated-filter category previous h),
  omega (arith, length-take {0} 5 (category ∷ filter (λ x. not (x == category)) previous)),
)

unwritten :
    (mode : MemoryMode) (name : Text) (held : Option TransactionMemory)
    → (remember_category mode name missing ≡ missing)
      × (remember_category mode name (read_only held) ≡ read_only held)
unfolding remember_category write_memory
unwritten mode [] held = (refl, refl)
unwritten mode (c ∷ name) held = (refl, refl)

-- Every choice, of any text in any mode and on any storage, keeps the memory tidy.
pub remember_category-IsTidy :
    (mode : MemoryMode) (name : Text) (s : Storage)
    → IsTidy s
    → IsTidy (remember_category mode name s)
unfolding remember_category
remember_category-IsTidy mode name missing h = rw (unwritten mode name none).0 h
remember_category-IsTidy mode name (read_only held) h = rw (unwritten mode name held).1 h
remember_category-IsTidy mode [] (writable held) h = h
remember_category-IsTidy mode (c ∷ name) (writable held) h = λ other.
    rw (remember_category-recent mode other c name held).0 (elim (Bool-cases (mode == other)) [
      | inl same ↦ rw same (next_recent-tidy (c ∷ name) (recent mode (writable held)) (h mode).0)
      | inr different ↦ rw different (h other)
    ])

rank_total : (a b : Option ℕ) → rank_le a b ≡ false → rank_le b a ≡ true
rank_total a b h = ground arith

rank_trans : (a b c : Option ℕ) → rank_le a b ≡ true → rank_le b c ≡ true → rank_le a c ≡ true
rank_trans a b c h k = ground arith

by_rank_total :
    {T : Type 0} (get_name : T → Text) (rank : Map Text ℕ) (x y : T)
    → by_rank get_name rank x y ≡ false
    → by_rank get_name rank y x ≡ true
by_rank_total get_name rank x y h = rank_total (get (get_name x) rank) (get (get_name y) rank) h

by_rank_trans :
    {T : Type 0} (get_name : T → Text) (rank : Map Text ℕ) (x y z : T)
    → by_rank get_name rank x y ≡ true
    → by_rank get_name rank y z ≡ true
    → by_rank get_name rank x z ≡ true
by_rank_trans get_name rank x y z h k =
    rank_trans (get (get_name x) rank) (get (get_name y) rank) (get (get_name z) rank) h k

-- Ordering by recency neither loses nor invents a category, and puts them in the order of their
-- ranks, the names that are not recent last.
pub order_by_recency-IsSorted :
    {T : Type 0} (get_name : T → Text) (mode : MemoryMode) (categories : List T) (s : Storage)
    → Perm (order_categories_by_recency get_name mode categories s) categories
      × (recent mode s ≢ []
          → IsSorted
              (by_rank get_name (ranks_from 0 [] (recent mode s)))
              (order_categories_by_recency get_name mode categories s))
unfolding order_categories_by_recency
order_by_recency-IsSorted {T} get_name mode categories s = go (recent mode s)
  where
    go :
        (names : List Text)
        → Perm (order_by get_name names categories) categories
          × (names ≢ []
              → IsSorted
                  (by_rank get_name (ranks_from 0 [] names))
                  (order_by get_name names categories))
    go [] = (Perm.refl categories, λ h. absurd (h refl))
    go (name ∷ names) =
        let rank = ranks_from 0 [] (name ∷ names) in
        (
          sort_by-perm (by_rank get_name rank) categories,
          λ _.
              sort_by-IsSorted (by_rank get_name rank) (by_rank_total get_name rank)
                (by_rank_trans get_name rank) categories,
        )
