-- ===== src/Base.antt =====
-- What the modules share: the libraries' names passed on, C's tests and fixed widths, byte lists,
-- and a memory read as a function of the address.
mod Logic
mod Lists
mod Words
mod Ranges
mod Divide
unfoldable pub use Logic.*
unfoldable pub use Lists.*
unfoldable pub use Words.*
unfoldable pub use Ranges.*
pub use Divide.{quotient-cases}
pub use Prim.Native.Nat.{ℕ, zero, suc, ◌+◌, ◌-◌, ◌*◌, ◌/◌, ◌%◌, ◌^◌, ◌≤◌, ◌<◌, min}
pub use mathlib.Core.Path.{◌≡◌, refl, sym, ap, ◌∙◌}
pub use mathlib.Core.Logic.{◌≢◌, ◌↔◌, ◌⊎◌, inl, inr}
pub use mathlib.Core.Bool.{Bool, true, false, not, ◌&&◌, ◌||◌}
pub use mathlib.Core.Option.{Option, none, some}
pub use mathlib.Core.List.{List, [], ◌∷◌, ◌++◌}
pub use native.Mathlib.Omega.{arith}
