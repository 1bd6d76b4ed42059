-- ===== src/Prelude.antt =====
-- Names that the modules share: those of the libraries, passed on, and those of the children.
mod Tests
mod Lists
mod Equality
mod Texts
mod Results
pub mod Int
pub mod Sort
pub mod Encoding
pub mod Assoc
unfoldable pub use Tests.*
unfoldable pub use Lists.*
unfoldable pub use Equality.*
unfoldable pub use Texts.*
unfoldable pub use Results.*
pub use Prim.Native.Nat.{ℕ, zero, suc, ◌+◌, ◌-◌, ◌*◌, ◌/◌, ◌%◌, ◌^◌, ◌≤◌, ◌<◌, min}
pub use Prim.Native.String.{String}
pub use mathlib.Core.Path.{◌≡◌, refl, sym, ap, ap₂, ◌∙◌, subst, subst₂}
pub use mathlib.Core.Logic.{◌≢◌, ◌↔◌, ◌⊎◌, inl, inr}
pub use mathlib.Core.Bool.{Bool, true, false, not, ◌&&◌, ◌||◌}
pub use mathlib.Core.Option.{Option, none, some}
pub use mathlib.Core.List.{List, [], ◌∷◌, ◌++◌, map, append_assoc, append-nil}
pub use native.Mathlib.Omega.{arith}
