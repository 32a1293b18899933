-- ===== src/Common/Lines.antt =====
-- What the program uses of Python's `str.splitlines` and `lstrip`, and the lines of a text.
use Prim.Native.Char.{Char, code}
use Prim.Native.String.{String, [], ◌∷◌}
use mathlib.Core.Path.{◌≡◌, refl}
use mathlib.Core.Bool.{Bool, ◌&&◌, ◌||◌}
use mathlib.Core.List.{List}
use text.Mathlib.Text.{starts_with}
use alph_e.Common.Tests.{leb, nat_eq, ◌==◌, if◌then◌else◌}

unfoldable pub before_first : Char → List String → List String
before_first c List.[] = List.◌∷◌ (c ∷ []) List.[]
before_first c (List.◌∷◌ piece pieces) = List.◌∷◌ (c ∷ piece) pieces

-- The pieces between the characters that the test accepts; there is always one.
unfoldable pub split_at : (Char → Bool) → String → List String
unfolding before_first
split_at p [] = List.◌∷◌ "" List.[]
split_at p (c ∷ s) =
    let rest = split_at p s in if p c then List.◌∷◌ "" rest else before_first c rest

-- What `str.splitlines` takes for the end of a line.
unfoldable pub is_break : Char → Bool
is_break c =
    let n = code c in
    (leb 10 n && leb n 13)
    || (leb 0x1c n && leb n 0x1e)
    || nat_eq n 0x85
    || nat_eq n 0x2028
    || nat_eq n 0x2029

-- A carriage return before a line feed belongs to it.
unfoldable pub unify_breaks : String → String
unify_breaks [] = []
unify_breaks (c ∷ s) =
    let rest = unify_breaks s in if nat_eq (code c) 13 && starts_with s "\n" then rest else c ∷ rest

-- without a last piece that is empty
unfoldable pub drop_last_empty : List String → List String
drop_last_empty List.[] = List.[]
drop_last_empty (List.◌∷◌ s List.[]) = if s == "" then List.[] else List.◌∷◌ s List.[]
drop_last_empty (List.◌∷◌ s (List.◌∷◌ t rest)) = List.◌∷◌ s (drop_last_empty (List.◌∷◌ t rest))

-- `s.splitlines()`
unfoldable pub splitlines : String → List String
splitlines s = drop_last_empty (split_at is_break (unify_breaks s))

-- `s.lstrip(chars)`, the characters given by a test
unfoldable pub lstrip_chars : (Char → Bool) → String → String
lstrip_chars p [] = []
lstrip_chars p (c ∷ s) = let rest = lstrip_chars p s in if p c then rest else c ∷ s

splitlines_test : splitlines "a\r\n\nb\n" ≡ List.◌∷◌ "a" (List.◌∷◌ "" (List.◌∷◌ "b" List.[]))
unfolding splitlines drop_last_empty split_at is_break unify_breaks before_first
splitlines_test = refl
