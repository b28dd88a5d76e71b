-- ===== src/Prelude.antt =====
-- The names that the other modules share: the libraries', passed on, and those of the children.
mod Tests
mod Lists
mod Strs
mod Sort
pub mod Int
pub mod Dict
pub mod Results
pub mod Ordering
pub use Tests.*
pub use Lists.*
pub use Strs.{Str, codes, str_eq_iff, str_eq_refl, is_empty}
unfoldable pub use Strs.{str_eq, starts_with, str_leb}
pub use Prim.{tt}
pub use Sort.{IsSorted, sort_strs-IsSorted, count-sort_strs}
unfoldable pub use Sort.{sort_strs, count}
pub use Prim.Native.Nat.{ℕ, zero, suc, ◌+◌, ◌-◌, ◌*◌, ◌/◌, ◌%◌, ◌^◌, ◌≤◌, ◌<◌}
pub use mathlib.Core.Path.{◌≡◌, refl, sym, ap, subst, ◌∙◌, fun_ext}
pub use mathlib.Core.Logic.{◌≢◌, ◌↔◌, ◌⊎◌, inl, inr}
pub use mathlib.Core.Bool.{Bool, true, false, not, ◌&&◌, ◌||◌}
pub use mathlib.Core.Option.{Option, none, some}
pub use mathlib.Core.List.{List, [], ◌∷◌, ◌++◌, map, append_assoc, append-nil}
pub use native.Mathlib.Omega.{arith}
