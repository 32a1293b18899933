-- ===== src/Common/Format.antt =====
-- Values as texts: decimal digits, `repr`, `:.2f`.
pub mod Digits
use Prim.Native.Nat.{ℕ, zero, suc, ◌+◌, ◌*◌, ◌/◌, ◌%◌, ◌^◌}
use Prim.Native.Char.{Char, code}
use Prim.Native.String.{String, [], ◌∷◌, ◌++◌}
use mathlib.Core.Bool.{not, ◌&&◌, ◌||◌}
use mathlib.Core.List.{List}
use mathlib.Core.Path.{◌≡◌, refl}
use alph_e.Common.Tests.{ltb, nat_eq, ◌==◌, if◌then◌else◌}
use alph_e.Common.Text.{str_in}

-- One digit, in base sixteen or below.
unfoldable pub hex_digit : ℕ → String
hex_digit n =
    if nat_eq n 0
    then "0"
    else if nat_eq n 1
    then "1"
    else if nat_eq n 2
    then "2"
    else if nat_eq n 3
    then "3"
    else if nat_eq n 4
    then "4"
    else if nat_eq n 5
    then "5"
    else if nat_eq n 6
    then "6"
    else if nat_eq n 7
    then "7"
    else if nat_eq n 8
    then "8"
    else if nat_eq n 9
    then "9"
    else if nat_eq n 10
    then "a"
    else if nat_eq n 11
    then "b"
    else if nat_eq n 12
    then "c"
    else if nat_eq n 13
    then "d"
    else if nat_eq n 14
    then "e"
    else "f"

-- The decimal digits of a number before a text; a number has fewer digits than its successor.
unfoldable pub show_from : ℕ → ℕ → String → String
unfolding hex_digit
show_from zero n acc = acc
show_from (suc f) n acc =
    let rest = show_from f (n / 10) (hex_digit (n % 10) ++ acc) in
    if ltb n 10 then hex_digit n ++ acc else rest

unfoldable pub show_ℕ : ℕ → String
unfolding show_from
show_ℕ n = show_from (suc n) n ""

-- `repr(s)`: quoted, with escapes. Characters outside ASCII count as printable.
escape_char : String → Char → String
unfolding hex_digit
escape_char q c =
    let n = code c in
    if nat_eq n 0x5c
    then "\\\\"
    else if (c ∷ []) == q
    then "\\" ++ q
    else if nat_eq n 10
    then "\\n"
    else if nat_eq n 13
    then "\\r"
    else if nat_eq n 9
    then "\\t"
    else if ltb n 32 || nat_eq n 127
    then "\\x" ++ (hex_digit (n / 16) ++ hex_digit (n % 16))
    else c ∷ []

escape : String → String → String
unfolding escape_char
escape q [] = []
escape q (c ∷ s) = escape_char q c ++ escape q s

unfoldable pub repr : String → String
unfolding escape str_in
repr s = let q = if str_in "'" s && not (str_in "\"" s) then "\"" else "'" in q ++ (escape q s ++ q)

-- `f"{x:.2f}"` of a score `x` below 10, which is given as the numerator of x = n / 2^1074: every
-- float from 0 to 1 is one. Correctly rounded, a tie to the even digit, as Python does.
round_half_even : ℕ → ℕ → ℕ
round_half_even a b =
    let q = a / b in
    let r = a % b in
    if ltb (2 * r) b
    then q
    else if ltb b (2 * r)
    then q + 1
    else if nat_eq (q % 2) 0
    then q
    else q + 1

unfoldable pub score_text : ℕ → String
unfolding round_half_even hex_digit
score_text n =
    let q = round_half_even (n * 100) (2 ^ 1074) in
    hex_digit (q / 100) ++ ("." ++ (hex_digit ((q / 10) % 10) ++ hex_digit (q % 10)))

-- `repr` of a list of texts
repr_items : List String → String
unfolding repr
repr_items List.[] = ""
repr_items (List.◌∷◌ s List.[]) = repr s
repr_items (List.◌∷◌ s (List.◌∷◌ t rest)) = repr s ++ (", " ++ repr_items (List.◌∷◌ t rest))

unfoldable pub repr_list : List String → String
unfolding repr_items
repr_list xs = "[" ++ (repr_items xs ++ "]")

repr_test : repr "it's\n" ≡ "\"it's\\n\""
unfolding repr
repr_test = refl

score_text_test : score_text (2 ^ 1073) ≡ "0.50"
unfolding score_text
score_text_test = refl

show_ℕ_test : show_ℕ 503 ≡ "503"
unfolding show_ℕ
show_ℕ_test = refl
