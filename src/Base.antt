-- ===== src/Base.antt =====
-- The names that the other modules share: the libraries', passed on, and those of the children:
-- tests and integers, lists over the native numbers, byte strings, association lists.
pub mod Tests
pub mod Lists
pub mod Text
pub mod Maps
pub mod Int
pub mod Format
pub mod Sort
pub mod Hex
pub mod Utf8
pub use Tests.*
pub use Lists.*
pub use Prim.Native.Nat.{ℕ, zero, suc, ◌+◌, ◌-◌, ◌*◌, ◌/◌, ◌%◌, ◌^◌, ◌≤◌, ◌<◌, min, max}
pub use mathlib.Core.Path.{◌≡◌, refl, sym, ap, ◌∙◌}
pub use mathlib.Core.Logic.{◌≢◌, ◌↔◌, ◌⊎◌, inl, inr}
pub use mathlib.Core.Bool.{Bool, true, false, not, ◌&&◌, ◌||◌}
pub use mathlib.Core.Option.{Option, none, some}
pub use mathlib.Core.List.{List, [], ◌∷◌, ◌++◌, map, append_assoc, append-nil}
pub use native.Mathlib.Omega.{arith}
unfoldable pub use Text.{Str, lit, str_eq, is_empty}
pub use Text.{str_eq_iff, str_eq_refl}
unfoldable pub use Utf8.{as_utf8}
unfoldable pub use Maps.{Assoc, lookup, insert, keys, values, or_empty, sub_map}
pub use Maps.{lookup-insert, sub_map-insert}
pub use Int.{ℤ, pos, negsuc, leb_ℤ, eq_ℤ}
unfoldable pub use Format.{decimal, decimal_ℤ, hex_byte, hex_number, quote, join, cut}
unfoldable pub use Sort.{sort}
pub use Sort.{any-sort}
