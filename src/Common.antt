-- ===== src/Common.antt =====
-- The names that the other modules share: the libraries', passed on, and the helpers of three
-- children (Boolean tests, lists, bit masks); Common.Sorting has the sort by a test.
pub mod Tests
pub mod Lists
pub mod Bits
pub mod Sorting
pub use Tests.*
pub use Lists.*
unfoldable pub use Lists.{count, remove_all, sum_by, drop, concat_map}
pub use Bits.*
pub use Prim.Native.Nat.{ℕ, zero, suc, ◌+◌, ◌-◌, ◌*◌, ◌/◌, ◌%◌, ◌^◌, ◌≤◌, ◌<◌, bit_and, bit_or}
pub use mathlib.Core.Path.{◌≡◌, refl, sym, ap, ◌∙◌, subst}
pub use mathlib.Core.Logic.{◌≢◌, ◌↔◌, ◌⊎◌, inl, inr}
pub use mathlib.Core.Bool.{Bool, true, false, not, ◌&&◌, ◌||◌}
pub use mathlib.Core.Option.{Option, none, some}
pub use mathlib.Core.List.{List, [], ◌∷◌, ◌++◌, map, append-nil, append_assoc}
pub use native.Mathlib.Omega.{arith}
