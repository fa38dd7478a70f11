-- ===== src/Prelude.antt =====
-- The names that the modules share: the libraries', passed on, and those of the modules below:
-- Boolean tests, lists with native lengths, texts as lists of code units, and parts of lists.
mod Tests
mod Lists
mod Strings
mod Sublists
mod Every
pub use Tests.*
unfoldable pub use Lists.*
unfoldable pub use Strings.*
pub use Sublists.*
pub use Every.*
pub use Prim.Native.Nat.{ℕ, zero, suc, ◌+◌, ◌-◌, ◌*◌, ◌/◌, ◌%◌, ◌^◌, ◌≤◌, ◌<◌, min, max}
pub use mathlib.Core.Path.{◌≡◌, refl, sym, ap, ap₂, ◌∙◌, ◌≡⟨◌⟩◌, ◌∎}
pub use mathlib.Core.Logic.{◌≢◌, ◌↔◌, ◌⊎◌, inl, inr}
pub use mathlib.Core.Bool.{Bool, true, false, true≢false, not, ◌&&◌, ◌||◌}
pub use mathlib.Core.Option.{Option, none, some}
pub use mathlib.Core.List.{List, [], ◌∷◌, ◌++◌, map, reverse, append_assoc, append-nil}
pub use native.Mathlib.Omega.{arith}
