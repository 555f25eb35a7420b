-- ===== src/Base.antt =====
-- The names that the other modules share: the libraries', passed on, and those of the children.
mod Tests
mod Lists
mod Strings
mod Maps
pub mod Decimal
pub mod Tokens
pub mod Splitting
pub mod Numbers
pub mod Sorting
pub mod Trimming
pub mod Bits
pub mod Integers
pub mod Doubles
pub use Tests.*
pub use Lists.*
unfoldable pub use Strings.{lower_unit, trim_start, trim_end, trim}
pub use Strings.{close, Text, codes, is_space, is_digit}
unfoldable pub use Maps.{get, put, delete, has}
pub use Maps.{Map, get-put, get-put_self, get-delete, keys}
pub use Prim.Native.Nat.{ℕ, zero, suc, ◌+◌, ◌-◌, ◌*◌, ◌/◌, ◌%◌, ◌^◌, ◌≤◌, ◌<◌, min, max}
pub use Prim.Native.String.{String}
pub use mathlib.Core.Path.{◌≡◌, refl, sym, ap, ap₂, ◌∙◌, fun_ext}
pub use mathlib.Core.Logic.{◌≢◌, ◌↔◌, ◌⊎◌, inl, inr}
pub use mathlib.Core.Bool.{Bool, true, false, not, ◌&&◌, ◌||◌}
pub use mathlib.Core.Option.{Option, none, some}
pub use mathlib.Core.List.{List, [], ◌∷◌, ◌++◌, map, append-nil, append_assoc, map-append}
pub use native.Mathlib.Omega.{arith}
unfoldable pub use native.Mathlib.Decide.{dec_lt, ℕ_discrete}
