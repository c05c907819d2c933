-- ===== src/Base.antt =====
-- The names that the other modules share: the libraries', passed on, and those of the children.
mod Tests
mod Lists
mod Strings
mod Int64
mod Decimal
pub use Tests.*
pub use Lists.*
unfoldable pub use Strings.{eqb, starts_with, lookup, insert, delete}
pub use Strings.{Bytes, Text, codes, eqb_iff, eqb_refl, lookup-insert, lookup-delete}
unfoldable pub use Decimal.{digits, read_digits, format_int, parse_int, fields}
pub use Decimal.{is_digit, is_filled, IsWord, parse_int-format_int, fields-two, format_int-IsWord}
unfoldable pub use Int64.{add64, sub64, mul64, quot64, slt, sle}
pub use Int64.{word, half_word, slt_small, sle_small}
pub use Prim.Native.Nat.{ℕ, zero, suc, ◌+◌, ◌-◌, ◌*◌, ◌/◌, ◌%◌, ◌^◌, ◌≤◌, ◌<◌}
pub use mathlib.Core.Path.{◌≡◌, refl, sym, ap, ap₂, ◌∙◌, subst}
pub use mathlib.Core.Logic.{◌≢◌, ◌↔◌, ◌⊎◌, inl, inr}
pub use mathlib.Core.Bool.{Bool, true, false, not, ◌&&◌, ◌||◌}
pub use mathlib.Core.Option.{Option, none, some}
pub use mathlib.Core.List.{
  List, [], ◌∷◌, ◌++◌, map, reverse, append-nil, append_assoc, map-append, reverse-append,
  reverse-reverse,
}
pub use native.Mathlib.Omega.{arith}
