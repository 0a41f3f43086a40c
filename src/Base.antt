-- ===== src/Base.antt =====
-- The names that the other modules share: the libraries' names, passed on, and those of three
-- children (Boolean tests, lists measured by native numbers, integers).
mod Tests
mod Lists
pub mod Sorting
pub mod Text
pub mod Maps
pub use Tests.*
pub use Lists.*
pub use Prim.Native.Nat.{ℕ, zero, suc, ◌+◌, ◌-◌, ◌*◌, ◌/◌, ◌%◌, ◌^◌, ◌≤◌, ◌<◌, min, max}
pub use Prim.Native.String.{String}
pub use mathlib.Core.Path.{◌≡◌, refl, sym, ap, subst, ◌∙◌}
pub use mathlib.Core.Logic.{◌≢◌, ◌↔◌, ◌⊎◌, inl, inr}
pub use mathlib.Core.Bool.{Bool, true, false, not, ◌&&◌, ◌||◌}
pub use mathlib.Core.Option.{Option, none, some, map as option_map}
pub use mathlib.Core.List.{
  List, [], ◌∷◌, ◌++◌, map, Mem, mem-cons_self, mem-cons_of_mem, mem-map_of_mem,
}
pub use native.Mathlib.Omega.{arith}
pub use text.Mathlib.TextEquality.{eq_iff}
