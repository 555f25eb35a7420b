-- ===== src/Memory.antt =====
-- web/src/lib/transaction-memory.ts: what the entry form remembers on a device.
-- The stored JSON text is the value that it is read back as; a text that is no such object reads as
-- no memory, as does a storage that throws.
pub mod Recency
use ledgerly_app.Base.{
  ℕ, suc, ◌+◌, Bool, true, false, not, Option, none, some, List, [], ◌∷◌, Text, filter, take, has,
  get, put, Map, Eq, leb, ◌==◌, nat_eq, text_eq, if◌then◌else◌,
}
use ledgerly_app.Base.Sorting.{sort_by}
use ledgerly_app.Memory.Modes.{MemoryMode, mode_eq}
mod Modes
pub use Modes.{MemoryMode, expense, income, transfer, split, mode_eq}

abbrev pub max_recent_categories : ℕ
max_recent_categories = 5

pub record TransactionMemory : Type 0 where
  pub account_id : Option Text
  pub categories : Option (Map MemoryMode (List Text))

abbrev pub no_memory : TransactionMemory
no_memory = record { account_id = none; categories = none }

-- `localStorage`: it may be missing, it may refuse what is written, and it may hold a memory.
pub data Storage : Type 0 where
  missing : Storage
  read_only : Option TransactionMemory → Storage
  writable : Option TransactionMemory → Storage

abbrev or_no_memory : Option TransactionMemory → TransactionMemory
or_no_memory none = no_memory
or_no_memory (some m) = m

unfoldable pub read_memory : Storage → TransactionMemory
read_memory missing = no_memory
read_memory (read_only held) = or_no_memory held
read_memory (writable held) = or_no_memory held

unfoldable pub write_memory : TransactionMemory → Storage → Storage
write_memory memory missing = missing
write_memory memory (read_only held) = read_only held
write_memory memory (writable held) = writable (some memory)

unfoldable pub remembered_account_id : Storage → Option Text
remembered_account_id s = (read_memory s).account_id

-- `existing[mode] ?? []`, where `existing` is `memory.categories ?? {}`
abbrev pub recent_in : MemoryMode → Option (Map MemoryMode (List Text)) → List Text
recent_in mode none = []
recent_in mode (some m) = elim (get mode m) [ none ↦ [] | some names ↦ names ]

abbrev pub or_empty : Option (Map MemoryMode (List Text)) → Map MemoryMode (List Text)
or_empty none = []
or_empty (some m) = m

abbrev first : List Text → Option Text
first [] = none
first (x ∷ _) = some x

unfoldable pub remembered_category : MemoryMode → Storage → Option Text
remembered_category mode s = first (recent_in mode (read_memory s).categories)

unfoldable pub remember_account : Text → Storage → Storage
remember_account [] s = s
remember_account (c ∷ id) s = write_memory (record (read_memory s) { account_id = some (c ∷ id) }) s

-- `[category, ...previous.filter((entry) => entry !== category)].slice(0, MAX_RECENT_CATEGORIES)`
unfoldable pub next_recent : Text → List Text → List Text
next_recent category previous =
    take max_recent_categories (category ∷ filter (λ entry. not (entry == category)) previous)

unfoldable pub remember_category : MemoryMode → Text → Storage → Storage
unfolding next_recent
remember_category mode [] s = s
remember_category mode (c ∷ name) s =
    let memory = read_memory s in
    write_memory
      (record memory {
        categories = some (
            put mode (next_recent (c ∷ name) (recent_in mode memory.categories))
              (or_empty memory.categories));
      })
      s

-- `new Map(recent.map((name, index) => [name, index]))`: of a name that is there twice the last index
-- counts.
unfoldable pub ranks_from : ℕ → Map Text ℕ → List Text → Map Text ℕ
ranks_from index rank [] = rank
ranks_from index rank (name ∷ names) = ranks_from (index + 1) (put name index rank) names

-- The comparison of two ranks is not positive.
abbrev pub rank_le : Option ℕ → Option ℕ → Bool
rank_le (some a) (some b) = leb a b
rank_le none (some b) = false
rank_le _ none = true

module _ {T : Type 0} (get_name : T → Text) where
  abbrev pub by_rank : Map Text ℕ → T → T → Bool
  by_rank rank left right = rank_le (get (get_name left) rank) (get (get_name right) rank)

  abbrev pub order_by : List Text → List T → List T
  order_by [] categories = categories
  order_by (name ∷ names) categories = sort_by (by_rank (ranks_from 0 [] (name ∷ names))) categories

  unfoldable pub order_categories_by_recency : MemoryMode → List T → Storage → List T
  unfolding ranks_from
  order_categories_by_recency mode categories s =
      order_by (recent_in mode (read_memory s).categories) categories
