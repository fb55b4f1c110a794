-- ===== src/Prelude.antt =====
-- The names that the other modules share: those of the libraries, passed on, and the Boolean tests,
-- the lists, the texts and the exceptions of the children.
mod Tests
mod Lists
mod Texts
pub mod Throwing
pub mod Trimmed
pub mod Double
mod Trim
mod Digits
mod Splice
pub mod Action
pub mod Dict
pub use Tests.*
pub use Lists.*
unfoldable pub use Lists.{any, all, filter, get_last}
pub use Texts.*
unfoldable pub use Texts.{text_eq, trim, is_space}
pub use Throwing.*
pub use Trim.*
unfoldable pub use Digits.{digits}
pub use Splice.*
pub use Prim.Native.Nat.{ℕ, zero, suc, ◌+◌, ◌-◌, ◌*◌, ◌/◌, ◌%◌, ◌≤◌, ◌<◌, min, max}
pub use mathlib.Core.Path.{◌≡◌, refl, sym, ap, ◌∙◌}
pub use mathlib.Core.Logic.{◌≢◌, ◌↔◌, ◌⊎◌, inl, inr}
pub use mathlib.Core.Bool.{Bool, true, false, not, ◌&&◌, ◌||◌}
pub use mathlib.Core.Option.{Option, none, some}
pub use mathlib.Core.List.{List, [], ◌∷◌, ◌++◌, map}
pub use native.Mathlib.Omega.{arith}
