-- ===== src/Prelude.antt =====
-- Names that every other module shares: the libraries' names passed on, Boolean tests on native
-- numbers, lists with native indices, signed integers, and runs that may abort.
mod Tests
mod Lists
mod Int
mod Runs
pub use Tests.*
unfoldable pub use Lists.*
unfoldable pub use Int.*
pub use Runs.*
pub use Prim.Native.Nat.{
  ℕ, zero, suc, ◌+◌, ◌-◌, ◌*◌, ◌/◌, ◌%◌, ◌^◌, ◌≤◌, ◌<◌, min, max, bit_xor, bit_xor-bitwise,
}
pub use mathlib.Core.Path.{◌≡◌, refl, sym, ap, ◌∙◌, subst, fun_ext}
pub use mathlib.Core.Logic.{◌≢◌, ◌↔◌, ◌⊎◌, inl, inr}
pub use mathlib.Core.Bool.{Bool, true, false, not, ◌&&◌, ◌||◌}
pub use mathlib.Core.Option.{Option, none, some}
unfoldable pub use mathlib.Core.Option.{or_else}
pub use mathlib.Core.List.{List, [], ◌∷◌}
unfoldable pub use mathlib.Core.List.{◌++◌, map, flatten}
pub use native.Mathlib.Omega.{arith}
