-- ===== src/Prelude.antt =====
-- Names that every module shares: the libraries', passed on, and those of the children below.
-- C arrays are lists (`Lists`) or, where large, functions from an index to a byte (`Bytes`); an
-- `int` is a `ℤ` (`Int`); machine words keep their wrap-around as `%` (`Words`).
mod Tests
mod Lists
mod Int
mod Words
mod Table
pub mod Bytes
pub mod Index
pub use Tests.*
unfoldable pub use Lists.*
pub use Int.*
pub use Words.*
unfoldable pub use Table.*
pub use Prim.Native.Nat.{ℕ, zero, suc, ◌+◌, ◌-◌, ◌*◌, ◌/◌, ◌%◌, ◌^◌, ◌≤◌, ◌<◌, bit_and, bit_or}
pub use mathlib.Core.Path.{◌≡◌, refl, sym, ap, ◌∙◌, fun_ext}
pub use mathlib.Core.Logic.{◌≢◌, ◌↔◌, ◌⊎◌, inl, inr}
pub use mathlib.Core.Bool.{Bool, true, false, not, ◌&&◌, ◌||◌}
pub use mathlib.Core.Option.{Option, none, some}
pub use mathlib.Core.List.{List, [], ◌∷◌, ◌++◌, map}
pub use native.Mathlib.Omega.{arith}
