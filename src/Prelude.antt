-- ===== src/Prelude.antt =====
-- The names that the other modules share: the libraries', passed on, the tests on numbers and
-- the conditional (Prelude.Tests), lists measured by native numbers (Prelude.Lists), the maps of
-- the server (Prelude.Assoc) and its ordered sets (Prelude.NatSet).
mod Tests
mod Lists
pub mod Int
pub mod Options
pub mod Assoc
pub mod NatSet
pub use Tests.*
pub use Lists.*
pub use Prim.Native.Nat.{ℕ, zero, suc, ◌+◌, ◌-◌, ◌*◌, ◌/◌, ◌%◌, ◌^◌, ◌≤◌, ◌<◌}
pub use Prim.Native.String.{String}
pub use mathlib.Core.Path.{◌≡◌, refl, sym, ap, subst, ◌∙◌}
pub use mathlib.Core.Logic.{◌≢◌, ◌↔◌, ◌⊎◌, inl, inr, ite, if_pos, if_neg}
pub use mathlib.Core.Bool.{Bool, true, false, not, ◌&&◌, ◌||◌}
pub use mathlib.Core.Option.{Option, none, some}
pub use mathlib.Core.List.{List, [], ◌∷◌, ◌++◌, map}
pub use native.Mathlib.Omega.{arith}
unfoldable pub use native.Mathlib.Decide.{dec_lt, ℕ_discrete}
