-- ===== src/Prelude.antt =====
-- The names that the other modules share: the libraries', passed on, and those of the children.
mod Tests
mod Lists
mod Int
mod Table
mod Results
pub use Tests.*
pub use Lists.*
pub use Results.*
pub use Int.{ℤ, pos, negsuc, pos_part, neg_part, sub_ℕ, +ℤ_cancel}
unfoldable pub use Int.{◌+ℤ◌, ◌-ℤ◌}
pub use Table.{
  All, All-map, All-append, All-update, select_test, All-select, update_none, select-append,
}
unfoldable pub use Table.{select, exists, update}
pub use Prim.Native.Nat.{ℕ, zero, suc, ◌+◌, ◌-◌, ◌*◌, ◌/◌, ◌%◌, ◌^◌, ◌≤◌, ◌<◌}
pub use Prim.Native.String.{String}
pub use mathlib.Core.Path.{◌≡◌, refl, subst, sym, ap, ◌∙◌}
pub use mathlib.Core.Logic.{◌≢◌, ◌↔◌, ◌⊎◌, inl, inr}
pub use mathlib.Core.Bool.{Bool, true, false, not, ◌&&◌, ◌||◌}
pub use mathlib.Core.Option.{Option, none, some}
pub use mathlib.Core.List.{List, [], ◌∷◌, ◌++◌, map}
pub use native.Mathlib.Omega.{arith}
