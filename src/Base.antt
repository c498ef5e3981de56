-- ===== src/Base.antt =====
-- The names that the other modules share.
mod Tests
mod Lists
mod Words
mod Results
mod Safety
mod Maps
mod ByteSlices
mod Decimals
pub use Tests.*
pub use Lists.*
unfoldable pub use Words.*
pub use Results.*
pub use Safety.*
unfoldable pub use Maps.*
unfoldable pub use ByteSlices.*
unfoldable pub use Decimals.*
pub use Prim.Native.Nat.{ℕ, zero, suc, ◌+◌, ◌-◌, ◌*◌, ◌/◌, ◌%◌, ◌^◌, ◌≤◌, ◌<◌, min, max}
pub use mathlib.Core.Path.{◌≡◌, refl, sym, ap, ap₂, subst, ◌∙◌}
pub use mathlib.Core.Logic.{◌≢◌, ◌↔◌, ◌⊎◌, inl, inr}
pub use mathlib.Core.Bool.{Bool, true, false, ◌&&◌, ◌||◌, not}
pub use mathlib.Core.Option.{Option, none, some}
pub use mathlib.Core.List.{List, [], ◌∷◌, ◌++◌, map}
pub use native.Mathlib.Omega.{arith}
