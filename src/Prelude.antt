-- ===== src/Prelude.antt =====
-- The names that the modules share.
mod Tests
mod Lists
mod Int
mod Panics
mod Maps
mod Families
pub mod Counting
pub use Tests.*
pub use Lists.*
pub use Int.*
unfoldable pub use Int.{◌+ℤ◌, ◌-ℤ◌, int32}
pub use Panics.*
pub use Families.{update_at, update_other, update-some}
unfoldable pub use Families.{update}
pub use Maps.{KeysOnce, insert-KeysOnce, str_eq_self, mem_str_self, mem_str_later, lookup-insert}
unfoldable pub use Maps.{mem_str, lookup, insert}
pub use Prim.Native.Nat.{ℕ, zero, suc, ◌+◌, ◌-◌, ◌*◌, ◌/◌, ◌%◌, ◌^◌, ◌≤◌, ◌<◌}
pub use mathlib.Core.Path.{◌≡◌, refl, sym, ap, ap₂, subst, ◌∙◌}
pub use mathlib.Core.Logic.{◌≢◌, ◌↔◌, ◌⊎◌, inl, inr}
pub use mathlib.Core.Bool.{Bool, true, false, not, ◌&&◌, ◌||◌}
pub use mathlib.Core.Option.{Option, none, some, some-injective}
pub use mathlib.Core.List.{List, [], ◌∷◌, ◌++◌, map}
pub use native.Mathlib.Omega.{arith}
unfoldable pub use native.Mathlib.Decide.{ℕ_discrete, dec_lt}
