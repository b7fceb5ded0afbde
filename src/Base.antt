-- ===== src/Base.antt =====
-- The names that every other module shares: the libraries', passed on, and those of the children.
-- No file of the repository is modelled here.
pub mod Bools
pub mod Int
pub mod Results
pub mod Lists
pub mod Queries
pub mod Strings
pub mod Bytes
pub mod Parsing
pub mod Spent
pub mod Trim
unfoldable pub use Bools.*
unfoldable pub use Int.*
unfoldable pub use Results.*
unfoldable pub use Lists.*
unfoldable pub use Queries.*
unfoldable pub use Strings.*
unfoldable pub use Trim.*
unfoldable pub use Bytes.*
unfoldable pub use Parsing.*
pub use Prim.Native.Nat.{ℕ, zero, suc, ◌+◌, ◌-◌, ◌*◌, ◌/◌, ◌%◌, ◌^◌, ◌≤◌, ◌<◌}
pub use Prim.Native.String.{String}
pub use mathlib.Core.Path.{◌≡◌, refl, sym, ap, ◌∙◌, subst}
pub use mathlib.Core.Logic.{◌≢◌, ◌↔◌, ◌⊎◌, inl, inr}
pub use mathlib.Core.Bool.{Bool, true, false, not, ◌&&◌, ◌||◌}
pub use mathlib.Core.Option.{Option, none, some}
pub use mathlib.Core.List.{List, [], ◌∷◌, ◌++◌, map}
pub use native.Mathlib.Omega.{arith}
