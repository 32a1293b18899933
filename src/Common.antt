-- ===== src/Common.antt =====
-- The names that the other modules share: those of the libraries, passed on, and those of the
-- children: tests on numbers and texts, lists, results, the clock.
mod Tests
mod Lists
mod Text
mod Format
mod Effects
mod Dict
mod Sets
mod Substring
mod Lines
mod Splitting
mod Json
pub use Tests.*
pub use Lists.*
unfoldable pub use Text.{
  str_in, lower, truthy, or_text, first_chars, strip, strip_left as lstrip, joined, text_length,
}
unfoldable pub use Format.{repr, score_text, show_ℕ, repr_list}
pub use Text.{◌<>◌}
unfoldable pub use Lines.{
  splitlines, split_at, is_break, unify_breaks, drop_last_empty, lstrip_chars,
}
unfoldable pub use Json.{json_text, json_list}
pub use Json.Reading.{json_text-cancel, json_text-append, quote}
pub use Format.Digits.{IsDelimited, starts_digit, show_ℕ-cancel, show_ℕ-head}
pub use Json.Document.{Value, Elements, Members, object_of, array_of}
unfoldable pub use Json.Document.{dumps, fields_of, each}
pub use Json.Faithful.{IsExactWriter, dumps-injective, delimited}
pub use Json.Layout.{ends_value}
pub use Json.Fenced.{IsFloatWriter, dumps-fenced}
pub use Json.{IsPlain, json_text-plain}
unfoldable pub use Splitting.{is_line}
pub use Splitting.{is_line_lem, IsLine, AreLines, splitlines-joined}
pub use Substring.{str_in-append, str_in-joined}
pub use Effects.*
unfoldable pub use Dict.{Assoc, lookup, insert, erase}
pub use Dict.{lookup-insert, lookup-erase}
unfoldable pub use Sets.{sorted_set}
pub use Sets.{contains-sorted_set, contains-append, IsDistinct, IsDistinct-snoc}
pub use Prim.Native.Nat.{ℕ, zero, suc, ◌+◌, ◌-◌, ◌*◌, ◌/◌, ◌%◌, ◌^◌, ◌≤◌, ◌<◌}
pub use Prim.Native.String.{String}
pub use mathlib.Core.Path.{◌≡◌, refl, sym, ap, ◌∙◌}
pub use mathlib.Core.Logic.{◌≢◌, ◌↔◌, ◌⊎◌, inl, inr}
pub use mathlib.Core.Bool.{Bool, true, false, not, ◌&&◌, ◌||◌}
pub use mathlib.Core.Option.{Option, none, some}
pub use mathlib.Core.List.{List, [], ◌∷◌, ◌++◌, map, append_assoc, append-nil}
pub use native.Mathlib.Omega.{arith}
pub use text.Mathlib.TextEquality.{eq_iff}
