-- ===== src/Prelude.antt =====
-- Names that every module shares: the libraries', passed on, and those of the children, which hold
-- Boolean tests, lists measured by native numbers, the standard map and fixed-width words.
mod Tests
mod Lists
mod Maps
pub mod Int
pub use Tests.*
pub use Lists.*
pub use Maps.{
  Assoc, AllValues, AllValues-put, AllValues-erase, AllValues-find, sum_values, value_at, find-put,
  find-put_same, find-put_other, find-emplace_new, find-emplace_kept, find-erase-none,
  find-erase_other, sum_values-put, sum_values-erase,
}
unfoldable pub use Maps.{find, put, erase, emplace}
pub use Prim.Native.Nat.{ℕ, zero, suc, ◌+◌, ◌-◌, ◌*◌, ◌/◌, ◌%◌, ◌≤◌, ◌<◌, min, max, bit_xor}
pub use Prim.Native.String.{String}
pub use mathlib.Core.Path.{◌≡◌, refl, sym, ap, ◌∙◌}
pub use mathlib.Core.Logic.{◌≢◌, ◌⊎◌, inl, inr}
pub use mathlib.Core.Bool.{Bool, true, false, ◌&&◌, ◌||◌, not}
pub use mathlib.Core.Option.{Option, none, some}
pub use mathlib.Core.List.{List, [], ◌∷◌, ◌++◌, map}
pub use native.Mathlib.Omega.{arith}
