-- ===== src/Base.antt =====
-- The names that every other module shares: the libraries', passed on, and those of three children.
mod Tests
mod Lists
mod Text
mod Partition
mod Encoding
mod Trim
mod Utf8
mod TextOrder
mod Int
mod Dicts
pub use Tests.*
pub use Lists.*
pub use Int.*
unfoldable pub use Dicts.*
pub use Text.*
unfoldable pub use Partition.*
unfoldable pub use Encoding.*
unfoldable pub use Trim.*
unfoldable pub use Utf8.*
pub use TextOrder.*
pub use Prim.Native.Nat.{ℕ, zero, suc, ◌+◌, ◌-◌, ◌*◌, ◌/◌, ◌%◌, ◌^◌, ◌≤◌, ◌<◌}
pub use Prim.Native.String.{String}
pub use mathlib.Core.Path.{◌≡◌, refl, sym, ap, ◌∙◌, subst}
pub use mathlib.Core.Logic.{◌≢◌, ◌↔◌, ◌⊎◌, inl, inr}
pub use mathlib.Core.Bool.{Bool, true, false, not, ◌&&◌, ◌||◌}
pub use mathlib.Core.Option.{Option, none, some}
pub use mathlib.Core.List.{
  List, [], ◌∷◌, ◌++◌, map, append-nil, append_assoc, append_cancel_left, append_cancel_right,
}
pub use native.Mathlib.Omega.{arith}
