-- ===== src/Base.antt =====
-- The names that the other modules share: the libraries', passed on, and those of its children
-- (Boolean tests, lists measured by native numbers, the arithmetic of size_t, maps, and calls that
-- may end the process).
mod Tests
mod Lists
mod Words
mod Exits
mod Maps
pub use Tests.*
pub use Lists.*
pub use Words.*
pub use Exits.*
pub use Maps.*
pub use Prim.Native.Nat.{ℕ, zero, suc, ◌+◌, ◌-◌, ◌*◌, ◌/◌, ◌%◌, ◌^◌, ◌≤◌, ◌<◌, min, bit_and, bit_or}
pub use mathlib.Core.Path.{◌≡◌, refl, sym, ap, ◌∙◌, subst}
pub use mathlib.Core.Logic.{◌≢◌, ◌↔◌, ◌⊎◌, inl, inr}
pub use mathlib.Core.Bool.{Bool, true, false, not, ◌&&◌, ◌||◌}
pub use mathlib.Core.Option.{Option, none, some}
pub use mathlib.Core.List.{List, [], ◌∷◌, ◌++◌, append-nil, append_assoc}
pub use native.Mathlib.Omega.{arith}
