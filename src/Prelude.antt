-- ===== src/Prelude.antt =====
-- The names that every component shares: the library's, passed on, and those of the children
-- (Boolean tests, lists over the native numbers, signed integers, comparison callbacks).
mod Tests
mod Lists
mod Int
mod Compare
mod Sorted
mod Word
mod Tabulate
mod Bits
pub use Tests.*
pub use Lists.*
unfoldable pub use Int.{sub_ℕ, ltb_ℤ}
pub use Int.*
pub use Compare.*
unfoldable pub use Sorted.{insert_sorted}
pub use Sorted.*
pub use Word.*
pub use Tabulate.*
pub use Bits.*
pub use Prim.Native.Nat.{ℕ, zero, suc, ◌+◌, ◌-◌, ◌*◌, ◌/◌, ◌%◌, ◌^◌, ◌≤◌, ◌<◌, min, max}
pub use mathlib.Core.Path.{◌≡◌, refl, sym, ap, ap₂, ◌∙◌}
pub use mathlib.Core.Logic.{◌≢◌, ◌↔◌, ◌⊎◌, inl, inr}
pub use mathlib.Core.Bool.{Bool, true, false, not, ◌&&◌, ◌||◌}
pub use mathlib.Core.Option.{Option, none, some}
pub use mathlib.Core.List.{List, [], ◌∷◌, ◌++◌, map, append-nil, append_assoc}
pub use native.Mathlib.Omega.{arith}
unfoldable pub use native.Mathlib.Decide.{dec_lt, dec_le, ℕ_discrete}
