-- ===== src/Base.antt =====
-- The names that every module shares: the libraries', passed on, and the helpers of the children
-- (Boolean tests, lists with Boolean filters, text equality, integers, error results).
mod Tests
mod Lists
mod Text
pub mod Int
pub mod Outcome
pub use Tests.*
pub use Lists.*
unfoldable pub use Text.{str_eq}
pub use Text.{dotted, str_eq_iff, str_eq_refl, str_eq→eq, str_eq_sym}
pub use Prim.Native.Nat.{ℕ, zero, suc, ◌+◌, ◌-◌, ◌*◌, ◌/◌, ◌%◌, ◌^◌, ◌≤◌, ◌<◌}
pub use Prim.Native.String.{String}
pub use mathlib.Core.Path.{◌≡◌, refl, sym, ap, ◌∙◌}
pub use mathlib.Core.Logic.{◌≢◌, ◌↔◌, ◌⊎◌, inl, inr}
pub use mathlib.Core.Bool.{Bool, true, false, not, ◌&&◌, ◌||◌}
pub use mathlib.Core.Option.{Option, none, some}
pub use mathlib.Core.List.{List, [], ◌∷◌, ◌++◌, map}
pub use native.Mathlib.Omega.{arith}
