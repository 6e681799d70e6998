-- ===== src/Base.antt =====
-- The names that the other modules share: the libraries' and those of the children below.
pub mod Tests
pub mod Lists
pub mod Chars
pub mod Results
pub use Tests.*
pub use Lists.*
pub use Results.*
unfoldable pub use Chars.{
  Text, codes, text_eq, lower, lower_char, all_chars, big_int, is_digit, is_hex_digit, is_space,
  unit_bytes, byte_length, decimal,
}
pub use Chars.{text_eq_iff, text_eq_refl, big_int-decimal}
pub use Prim.Native.Nat.{ℕ, zero, suc, ◌+◌, ◌-◌, ◌*◌, ◌/◌, ◌%◌, ◌^◌, ◌≤◌, ◌<◌, min, max}
pub use Prim.Native.String.{String}
pub use mathlib.Core.Path.{◌≡◌, refl, sym, ap, ◌∙◌, subst}
pub use mathlib.Core.Logic.{◌≢◌, ◌↔◌, ◌⊎◌, inl, inr}
pub use mathlib.Core.Bool.{Bool, true, false, not, ◌&&◌, ◌||◌}
pub use mathlib.Core.Option.{Option, none, some}
pub use mathlib.Core.List.{List, [], ◌∷◌, ◌++◌, map}
pub use native.Mathlib.Omega.{arith}
