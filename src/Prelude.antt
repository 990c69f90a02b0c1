-- ===== src/Prelude.antt =====
-- The names that the other modules share: the libraries', passed on, and those of the children.
-- Go's `string` and `[]byte` are both lists of bytes here.
mod Tests
mod Lists
mod Int
mod Bytes
mod Space
mod Maps
mod Fields
mod Results
mod Sort
pub use Tests.*
unfoldable pub use Lists.*
pub use Int.*
unfoldable pub use Int.{int64_of}
unfoldable pub use Bytes.{◌==◌}
pub use Bytes.{Text, bytes, eq_iff, eq_refl, eq-false_of_ne}
unfoldable pub use Space.{trim_space}
pub use Space.{is_blank, trim_space_idem, trim_space-keeps}
unfoldable pub use Fields.{fields}
pub use Fields.{IsPrintable, fields_of_two}
pub use Results.*
unfoldable pub use Maps.{lookup, insert, delete, contains, keys}
pub use Maps.{Map, lookup-insert, lookup-delete, lookup-copy}
unfoldable pub use Maps.{copy}
unfoldable pub use Sort.{sort_strings}
pub use Sort.{
  text_le, text_le_total, text_le_trans, IsSorted, sort_strings-IsSorted, contains-sort_strings,
}
pub use Prim.Native.Nat.{ℕ, zero, suc, ◌+◌, ◌-◌, ◌*◌, ◌/◌, ◌%◌, ◌^◌, ◌≤◌, ◌<◌}
pub use mathlib.Core.Path.{◌≡◌, refl, sym, ap, ◌∙◌, subst}
pub use mathlib.Core.Logic.{◌≢◌, ◌↔◌, ◌⊎◌, inl, inr}
pub use mathlib.Core.Bool.{Bool, true, false, not, ◌&&◌, ◌||◌}
pub use mathlib.Core.Option.{Option, none, some}
pub use mathlib.Core.List.{List, [], ◌∷◌, ◌++◌, append_assoc, append-nil, map, reverse}
pub use native.Mathlib.Omega.{arith}
