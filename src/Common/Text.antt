-- ===== src/Common/Text.antt =====
-- What the program uses of the texts of Python: `in`, `lower`, `join`, `len`, slices, `strip`.
use Prim.Native.Nat.{ℕ, zero, suc}
use Prim.Native.Char.{Char, code}
use Prim.Native.String.{String, [], ◌∷◌, ◌++◌}
use mathlib.Core.Bool.{Bool, true, not, ◌&&◌, ◌||◌}
use mathlib.Core.Option.{Option, none, some}
use mathlib.Core.List.{List}
use mathlib.Core.Path.{◌≡◌, refl}
use text.Mathlib.Text.{starts_with}
use alph_e.Common.Tests.{leb, nat_eq, ◌==◌, if◌then◌else◌}

-- The texts one after the other.
infixl 65 ◌<>◌
abbrev pub ◌<>◌ : String → String → String
s <> t = s ++ t

-- `t in s`: `t` begins at some place of `s`.
unfoldable pub str_in : String → String → Bool
str_in t [] = t == ""
str_in t (c ∷ s) = starts_with (c ∷ s) t || str_in t s

-- One character of `str.lower`, exact wherever the result is an ASCII letter: besides A to Z only
-- the Kelvin sign and the dotted capital I have ASCII letters in their lower case. The other
-- characters are left as they are, which no test for an ASCII text can tell.
letters : List (ℕ × String)
letters =
    List.◌∷◌ (65, "a")
      (List.◌∷◌ (66, "b")
        (List.◌∷◌ (67, "c")
          (List.◌∷◌ (68, "d")
            (List.◌∷◌ (69, "e")
              (List.◌∷◌ (70, "f")
                (List.◌∷◌ (71, "g")
                  (List.◌∷◌ (72, "h")
                    (List.◌∷◌ (73, "i")
                      (List.◌∷◌ (74, "j")
                        (List.◌∷◌ (75, "k")
                          (List.◌∷◌ (76, "l")
                            (List.◌∷◌ (77, "m")
                              (List.◌∷◌ (78, "n")
                                (List.◌∷◌ (79, "o")
                                  (List.◌∷◌ (80, "p")
                                    (List.◌∷◌ (81, "q")
                                      (List.◌∷◌ (82, "r")
                                        (List.◌∷◌ (83, "s")
                                          (List.◌∷◌ (84, "t")
                                            (List.◌∷◌ (85, "u")
                                              (List.◌∷◌ (86, "v")
                                                (List.◌∷◌ (87, "w")
                                                  (List.◌∷◌ (88, "x")
                                                    (List.◌∷◌ (89, "y")
                                                      (List.◌∷◌ (90, "z")
                                                        (List.◌∷◌ (0x212a, "k")
                                                          (List.◌∷◌ (0x130, "i̇")
                                                            List.[])))))))))))))))))))))))))))

lower_char : List (ℕ × String) → Char → String
lower_char List.[] c = c ∷ []
lower_char (List.◌∷◌ (n, t) rest) c = if nat_eq (code c) n then t else lower_char rest c

unfoldable pub lower : String → String
unfolding letters lower_char
lower [] = []
lower (c ∷ s) = lower_char letters c ++ lower s

-- `bool(s)`
unfoldable pub truthy : String → Bool
truthy s = not (s == "")

-- `s or t` where `s` may be `None`
unfoldable pub or_text : Option String → String → String
unfolding truthy
or_text none t = t
or_text (some s) t = if truthy s then s else t

-- `sep.join(parts)`
unfoldable pub joined : String → List String → String
joined sep List.[] = ""
joined sep (List.◌∷◌ s List.[]) = s
joined sep (List.◌∷◌ s (List.◌∷◌ t rest)) = s ++ (sep ++ joined sep (List.◌∷◌ t rest))

-- `s[:n]`
unfoldable pub first_chars : ℕ → String → String
first_chars zero s = []
first_chars (suc n) [] = []
first_chars (suc n) (c ∷ s) = c ∷ first_chars n s

-- `len(s)`
unfoldable pub text_length : String → ℕ
text_length [] = 0
text_length (c ∷ s) = suc (text_length s)

-- What `str.strip` takes for white space.
is_space : Char → Bool
is_space c =
    let n = code c in
    (leb 9 n && leb n 13)
    || (leb 0x1c n && leb n 0x20)
    || nat_eq n 0x85
    || nat_eq n 0xa0
    || nat_eq n 0x1680
    || (leb 0x2000 n && leb n 0x200a)
    || nat_eq n 0x2028
    || nat_eq n 0x2029
    || nat_eq n 0x202f
    || nat_eq n 0x205f
    || nat_eq n 0x3000

-- `s.lstrip()`
unfoldable pub strip_left : String → String
unfolding is_space
strip_left [] = []
strip_left (c ∷ s) = let rest = strip_left s in if is_space c then rest else c ∷ s

all_space : String → Bool
all_space [] = true
all_space (c ∷ s) = is_space c && all_space s

strip_right : String → String
unfolding all_space
strip_right [] = []
strip_right (c ∷ s) = if all_space (c ∷ s) then [] else c ∷ strip_right s

-- `s.strip()`
unfoldable pub strip : String → String
unfolding is_space strip_left strip_right
strip s = strip_right (strip_left s)

strip_test : strip "  a b\n" ≡ "a b"
unfolding strip
strip_test = refl

lower_test : lower "OOMKilled" ≡ "oomkilled"
unfolding lower
lower_test = refl

str_in_test : str_in "kill" "oomkilled" ≡ true
unfolding str_in
str_in_test = refl
