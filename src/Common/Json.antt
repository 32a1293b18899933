-- ===== src/Common/Json.antt =====
-- Texts in JSON, as Python's `json.dumps` writes them with `ensure_ascii`.
pub mod Units
pub mod Reading
pub mod Calm
pub mod Document
pub mod Fenced
pub mod Layout
pub mod Faithful
use Prim.Native.Nat.{ℕ, ◌+◌, ◌-◌, ◌/◌, ◌%◌}
use Prim.Native.Char.{Char, code}
use Prim.Native.String.{String, ◌++◌}
use mathlib.Core.Path.{◌≡◌, refl, sym, ◌∙◌}
use mathlib.Core.Bool.{Bool, true, ◌&&◌, not}
use mathlib.Core.List.{List, [], ◌∷◌}
use text.Mathlib.TextLemmas.{cons-append, nil-append, append_cancel_left, append_cancel_right}
use native.Mathlib.Omega.{arith}
use alph_e.Common.Format.{hex_digit}
use alph_e.Common.Tests.{ltb, leb, nat_eq, if◌then◌else◌}

-- `\uXXXX`
unfoldable pub unicode_escape : ℕ → String
unfolding hex_digit
unicode_escape n =
    "\\u"
    ++ (hex_digit (n / 4096)
        ++ (hex_digit (n / 256 % 16) ++ (hex_digit (n / 16 % 16) ++ hex_digit (n % 16))))

-- One character: a short escape, itself if it is printable ASCII, else `\uXXXX`, as a surrogate
-- pair beyond the first plane.
unfoldable pub json_char : Char → String
unfolding unicode_escape
json_char c =
    let n = code c in
    if nat_eq n 0x22
    then "\\\""
    else if nat_eq n 0x5c
    then "\\\\"
    else if nat_eq n 10
    then "\\n"
    else if nat_eq n 13
    then "\\r"
    else if nat_eq n 9
    then "\\t"
    else if nat_eq n 12
    then "\\f"
    else if nat_eq n 8
    then "\\b"
    else if leb 0x20 n && leb n 0x7e
    then String.◌∷◌ c String.[]
    else if ltb n 0x10000
    then unicode_escape n
    else unicode_escape (0xd800 + (n - 0x10000) / 1024)
      ++ unicode_escape (0xdc00 + (n - 0x10000) % 1024)

unfoldable pub json_chars : String → String
unfolding json_char
json_chars String.[] = ""
json_chars (String.◌∷◌ c s) = json_char c ++ json_chars s

-- A text as `json.dumps` writes it.
unfoldable pub json_text : String → String
unfolding json_chars
json_text s = "\"" ++ (json_chars s ++ "\"")

json_items_of : List String → String
json_items_of [] = ""
json_items_of (s ∷ []) = json_text s
json_items_of (s ∷ t ∷ rest) = json_text s ++ ("," ++ json_items_of (t ∷ rest))

-- a list of texts, without blanks
unfoldable pub json_list : List String → String
unfolding json_items_of
json_list xs = "[" ++ (json_items_of xs ++ "]")

-- A character that JSON writes as it is.
abbrev pub is_plain : Char → Bool
is_plain c =
    let n = code c in leb 0x20 n && leb n 0x7e && not (nat_eq n 0x22) && not (nat_eq n 0x5c)

abbrev pub IsPlain : String → Type 0
IsPlain String.[] = Unit
IsPlain (String.◌∷◌ c s) = (is_plain c ≡ true) × IsPlain s

json_char_plain : (c : Char) → is_plain c ≡ true → json_char c ≡ String.◌∷◌ c String.[]
unfolding json_char
json_char_plain c h = ground (arith, h)

json_chars_plain : (s : String) → IsPlain s → json_chars s ≡ s
unfolding json_chars
json_chars_plain String.[] h = refl
json_chars_plain (String.◌∷◌ c s) h =
    rw (json_char_plain c h.0, json_chars_plain s h.1)
      (cons-append c String.[] s ∙ rw nil-append refl)

-- Two plain texts with the same JSON are the same.
pub json_text-plain : (s t : String) → IsPlain s → IsPlain t → json_text s ≡ json_text t → s ≡ t
unfolding json_text
json_text-plain s t h k e =
    let quoted = append_cancel_left "\"" _ _ e in
    let chars = append_cancel_right _ _ "\"" quoted in
    sym (json_chars_plain s h) ∙ (chars ∙ json_chars_plain t k)
