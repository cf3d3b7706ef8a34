-- ===== src/Prelude.antt =====
-- The names that the other modules share: the libraries', passed on, and those of the children.
mod Tests
mod Lists
mod Strings
mod Lines
mod Decimal
mod Dicts
mod Int
mod Doubles
mod Sort
unfoldable pub use Tests.*
unfoldable pub use Lists.*
unfoldable pub use Strings.*
unfoldable pub use Lines.*
unfoldable pub use Decimal.*
unfoldable pub use Dicts.*
unfoldable pub use Int.*
unfoldable pub use Sort.*
unfoldable pub use Doubles.{
  round_seven_tenths, quotient, times, math_round, scaled, half_even, quotient_exponent,
  round_to_double, bits_from,
}
pub use Doubles.{BinaryFraction}
pub use Doubles.Bounds.{math_round-times, math_round-times-whole, math_round-times-nothing}
pub use Prim.Native.Nat.{ℕ, zero, suc, ◌+◌, ◌-◌, ◌*◌, ◌/◌, ◌%◌, ◌^◌, ◌≤◌, ◌<◌, min, max}
pub use Prim.Native.String.{String}
pub use mathlib.Core.Path.{◌≡◌, refl, sym, ap, ap₂, ◌∙◌}
pub use mathlib.Core.Logic.{◌≢◌, ◌↔◌, ◌⊎◌, inl, inr}
pub use mathlib.Core.Bool.{Bool, true, false, ◌&&◌, ◌||◌, not}
pub use mathlib.Core.Option.{Option, none, some}
pub use mathlib.Core.List.{List, [], ◌∷◌, ◌++◌, map, append_assoc, append-nil, map-append}
pub use native.Mathlib.Omega.{arith}
