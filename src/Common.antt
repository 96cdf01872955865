-- ===== src/Common.antt =====
-- Names that all modules share: the libraries', passed on, and those of the children. Nothing here
-- models code of its own; `Dict` stands for the `Map` objects of the program.
mod Tests
mod Lists
mod Maps
mod Logic
mod Options
pub mod Int
pub use Tests.*
pub use Lists.*
pub use Logic.*
pub use Options.*
pub use Int.{ℤ, pos, negsuc, ltb_ℤ, ◌≤ℤ◌, dist_ℤ, pos_part, neg_part}
unfoldable pub use Maps.*
pub use Prim.Native.Nat.{ℕ, zero, suc, ◌+◌, ◌-◌, ◌*◌, ◌/◌, ◌%◌, ◌^◌, ◌≤◌, ◌<◌, min, max}
pub use Prim.Native.String.{String}
pub use mathlib.Core.Path.{◌≡◌, refl, sym, ap, subst, ◌∙◌, fun_ext}
pub use mathlib.Core.Logic.{◌≢◌, ◌↔◌, ◌⊎◌, inl, inr}
pub use mathlib.Core.Bool.{Bool, true, false, not, ◌&&◌, ◌||◌}
pub use mathlib.Core.Option.{Option, none, some}
pub use mathlib.Core.List.{List, [], ◌∷◌, ◌++◌, map}
pub use native.Mathlib.Omega.{arith}
pub use text.Mathlib.TextEquality.{eq_iff}
