-- ===== src/Common.antt =====
-- Shared names: the libraries', Boolean tests, lists over the native numbers, and the interface to
-- the program's floating-point numbers.
mod Tests
mod Lists
mod Rows
mod Int
pub mod Float
pub mod Least
pub mod Fixed
pub mod Table
pub use Tests.*
pub use Lists.*
unfoldable pub use Rows.*
pub use Int.{ℤ, pos, negsuc}
pub use Prim.Native.Nat.{ℕ, zero, suc}
pub use mathlib.Core.Path.{◌≡◌, refl, sym, ap, ◌∙◌}
pub use mathlib.Core.Logic.{◌≢◌, ◌↔◌, ◌⊎◌, inl, inr}
pub use mathlib.Core.Bool.{Bool, true, false, not, ◌&&◌, ◌||◌}
pub use mathlib.Core.Option.{Option, none, some}
pub use mathlib.Core.List.{List, [], ◌∷◌, ◌++◌, map}
pub use native.Mathlib.Omega.{arith}
