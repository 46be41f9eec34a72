-- ===== src/Prelude.antt =====
-- The names that the other modules share: library names passed on, Boolean tests, lists by native
-- index, C integers and the rule sets for the tactics.
pub mod Tests
pub mod Lists
pub mod Int
pub mod Words
pub mod Count
pub use Tests.*
pub use Lists.*
pub use Int.*
pub use Words.*
unfoldable pub use Count.*
pub use Prim.Native.Nat.{ℕ, zero, suc, ◌+◌, ◌-◌, ◌*◌, ◌/◌, ◌%◌, ◌^◌, ◌≤◌, ◌<◌, bit_and, bit_or}
pub use mathlib.Core.Path.{◌≡◌, refl, sym, ap, ◌∙◌, subst, fun_ext}
pub use mathlib.Core.Logic.{◌≢◌, ◌↔◌, ◌⊎◌, inl, inr}
pub use mathlib.Core.Bool.{Bool, true, false, ◌&&◌, ◌||◌, not}
pub use mathlib.Core.Option.{Option, none, some}
pub use mathlib.Core.List.{List, [], ◌∷◌, ◌++◌, map, append-nil, append_assoc}
pub use native.Mathlib.Omega.{arith}
