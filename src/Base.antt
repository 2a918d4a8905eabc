-- ===== src/Base.antt =====
-- The names that the modules of the development share: those of the libraries, passed on, and
-- the tests, list loops and dictionaries of the children.
mod Tests
mod Lists
mod Sets
mod Results
mod Counting
mod Equality
mod Problems
mod Picking
pub use Tests.*
unfoldable pub use Lists.*
unfoldable pub use Sets.*
pub use Results.*
unfoldable pub use Counting.*
unfoldable pub use Equality.*
unfoldable pub use Problems.*
pub use Picking.*
pub use Prim.Native.Nat.{ℕ, zero, suc, ◌+◌, ◌-◌, ◌*◌, ◌/◌, ◌≤◌, ◌<◌}
pub use Prim.Native.String.{String}
pub use mathlib.Core.Path.{◌≡◌, refl, sym, ap, ◌∙◌, subst}
pub use mathlib.Core.Logic.{◌≢◌, ◌↔◌, ◌⊎◌, inl, inr}
pub use mathlib.Core.Bool.{Bool, true, false, not, ◌&&◌, ◌||◌}
pub use mathlib.Core.Option.{Option, none, some}
pub use mathlib.Core.List.{List, [], ◌∷◌, ◌++◌, map, Memᴰ}
pub use native.Mathlib.Omega.{arith}
