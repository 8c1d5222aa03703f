-- ===== src/Common.antt =====
-- The names that every module shares: those of the libraries, passed on, and the helpers over the
-- native numbers, over bytes and over signed integers of the children.
mod Tests
pub mod Lists
pub mod Int
pub mod Decimal
pub mod Strings
pub use Tests.*
pub use Int.{ℤ, pos, negsuc}
pub use Lists.*
unfoldable pub use Lists.{join}
pub use Prim.Native.Nat.{ℕ, zero, suc, ◌+◌, ◌-◌, ◌*◌, ◌/◌, ◌%◌, ◌^◌, ◌≤◌, ◌<◌}
pub use mathlib.Core.Path.{◌≡◌, refl, sym, ap, ap₂, subst, ◌∙◌}
pub use mathlib.Core.Logic.{◌≢◌, ◌↔◌, ◌⊎◌, inl, inr}
pub use mathlib.Core.Bool.{Bool, true, false, not, ◌&&◌, ◌||◌}
pub use mathlib.Core.Option.{Option, none, some}
pub use mathlib.Core.List.{List, [], ◌∷◌, ◌++◌, map, append-nil, append_assoc, map-append}
pub use native.Mathlib.Omega.{arith}
