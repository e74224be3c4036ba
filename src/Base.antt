-- ===== src/Base.antt =====
-- Names the other modules share: those of the libraries, passed on, and those of the children
-- (Boolean tests, lists, texts, results) for the parts of the Rust standard library in use.
mod Tests
mod Lists
mod Results
mod Numbers
mod Sorting
mod Members
pub mod Bits
pub mod Text
pub mod Operations
pub use Tests.*
pub use Lists.*
pub use Results.*
unfoldable pub use Numbers.*
pub use Sorting.*
pub use Members.*
pub use Prim.Native.Nat.{ℕ, zero, suc, ◌+◌, ◌-◌, ◌*◌, ◌/◌, ◌%◌, ◌^◌, ◌≤◌, ◌<◌, min, max}
pub use Prim.Native.String.{String}
pub use mathlib.Core.Path.{◌≡◌, refl, sym, ap, ◌∙◌}
pub use mathlib.Core.Logic.{◌≢◌, ◌↔◌, ◌⊎◌, inl, inr}
pub use mathlib.Core.Bool.{Bool, true, false, not, ◌&&◌, ◌||◌}
pub use mathlib.Core.Option.{Option, none, some}
pub use mathlib.Core.List.{List, [], ◌∷◌, ◌++◌, map}
pub use native.Mathlib.Omega.{arith}
