-- ===== src/Base.antt =====
-- The names that the other modules share: the libraries', passed on, and those of the children.
mod Tests
mod Lists
mod Int
mod Text
mod Maps
mod Numbers
mod Results
unfoldable pub use Int.{◌+ℤ◌, ◌-ℤ◌}
pub use Int.*
pub use Tests.*
pub use Lists.*
pub use Text.*
unfoldable pub use Text.{trim, to_upper, to_lower, codes}
pub use Maps.*
unfoldable pub use Maps.{lookup, insert, remove}
pub use Results.*
unfoldable pub use Numbers.{positive_finite}
pub use Numbers.*
pub use Prim.Native.Nat.{ℕ, zero, suc, ◌+◌, ◌-◌, ◌*◌, ◌/◌, ◌%◌, ◌≤◌, ◌<◌, max}
pub use Prim.Native.String.{String}
pub use mathlib.Core.Path.{◌≡◌, refl, sym, ap, ◌∙◌, subst}
pub use mathlib.Core.Logic.{◌≢◌, ◌↔◌, ◌⊎◌, inl, inr}
pub use mathlib.Core.Bool.{Bool, true, false, ◌&&◌, ◌||◌, not}
pub use mathlib.Core.Option.{Option, none, some}
pub use mathlib.Core.List.{List, [], ◌∷◌, ◌++◌, map}
pub use native.Mathlib.Omega.{arith}
