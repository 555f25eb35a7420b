-- ===== src/Memory/Modes.antt =====
-- The modes of an entry, as keys.
use ledgerly_app.Base.{◌≡◌, ◌↔◌, Bool, true, false, Eq, arith}

pub data MemoryMode : Type 0 where
  expense income transfer split : MemoryMode

abbrev pub same_mode : MemoryMode → MemoryMode → Bool
same_mode expense expense = true
same_mode income income = true
same_mode transfer transfer = true
same_mode split split = true
same_mode _ _ = false

pub same_mode_iff : (a b : MemoryMode) → (same_mode a b ≡ true) ↔ (a ≡ b)
same_mode_iff a b = ground arith

instance abbrev pub mode_eq : Eq MemoryMode
mode_eq = record { same = same_mode; same_iff = same_mode_iff }
