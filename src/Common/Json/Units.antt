-- ===== src/Common/Json/Units.antt =====
-- One UTF-16 unit off what Common/Json writes, and a surrogate pair.
use Prim.Native.Nat.{ℕ, ◌+◌, ◌-◌, ◌*◌, ◌/◌, ◌%◌, ◌<◌, Ordering, compare}
use Prim.Native.Char.{Char, char, code, IsLt}
use Prim.Native.String.{String, [], ◌∷◌, ◌++◌}
use mathlib.Core.Path.{◌≡◌, refl, ap, ◌∙◌}
use mathlib.Core.Logic.{◌⊎◌, inl, inr}
use mathlib.Core.Bool.{◌&&◌}
use mathlib.Core.Option.{Option, none, some}
use text.Mathlib.TextLemmas.{cons-append, nil-append, append_assoc}
use native.Mathlib.Omega.{arith, compare-lt}
use alph_e.Common.Tests.{ltb, leb, nat_eq, if◌then◌else◌}
use alph_e.Common.Format.{hex_digit}
use alph_e.Common.Format.Digits.{hex_value, hex_digit_lem, hex_digit-append}
use alph_e.Common.Json.{unicode_escape}

-- A character is below 0x110000 and no surrogate. These two have the clauses of the built-in module's.
abbrev Both : Ordering → Ordering → Type 0
Both Ordering.lt o = IsLt o
Both Ordering.eq _ = ⊥
Both Ordering.gt _ = ⊥

abbrev Scalar : Ordering → Ordering → Ordering → Type 0
Scalar Ordering.lt _ _ = Unit
Scalar Ordering.eq o p = Both o p
Scalar Ordering.gt o p = Both o p

unfoldable pub InRange : ℕ → Type 0
InRange n = (n < 0xd800) ⊎ ((0xdfff < n) × (n < 0x110000))

pub code-InRange : (c : Char) → InRange (code c)
unfolding InRange
code-InRange (char n p) =
    go (compare n 55296) (compare 57343 n) (compare n 1114112) refl refl refl p
  where
    go :
        (a b c : Ordering)
        → compare n 55296 ≡ a
        → compare 57343 n ≡ b
        → compare n 1114112 ≡ c
        → Scalar a b c
        → (n < 0xd800) ⊎ ((0xdfff < n) × (n < 0x110000))
    go Ordering.lt b c e f g h = inl (compare-lt _ _ e)
    go Ordering.eq Ordering.lt Ordering.lt e f g h = inr (compare-lt _ _ f, compare-lt _ _ g)
    go Ordering.gt Ordering.lt Ordering.lt e f g h = inr (compare-lt _ _ f, compare-lt _ _ g)
    go _ _ _ e f g h = absurd h

-- One UTF-16 unit off the front of a quoted text; `none` at the quote that ends it.
four_digits : String → Option (ℕ × String)
unfolding hex_value
four_digits (a ∷ b ∷ c ∷ d ∷ s) = some (
  hex_value (code a) * 4096
      + hex_value (code b) * 256
      + hex_value (code c) * 16
      + hex_value (code d),
  s,
)
four_digits _ = none

unfoldable pub escaped : ℕ → ℕ
escaped n =
    if nat_eq n 0x6e
    then 10
    else if nat_eq n 0x72
    then 13
    else if nat_eq n 0x74
    then 9
    else if nat_eq n 0x66
    then 12
    else if nat_eq n 0x62
    then 8
    else n

unfoldable pub after_backslash : String → Option (ℕ × String)
unfolding four_digits escaped
after_backslash [] = none
after_backslash (c ∷ s) = if nat_eq (code c) 0x75 then four_digits s else some (escaped (code c), s)

unfoldable pub read_unit : String → Option (ℕ × String)
unfolding after_backslash
read_unit [] = none
read_unit (c ∷ s) =
    if nat_eq (code c) 0x22
    then none
    else if nat_eq (code c) 0x5c
    then after_backslash s
    else some (code c, s)

unfoldable pub joined_units : ℕ → Option (ℕ × String) → Option (ℕ × String)
joined_units hi none = none
joined_units hi (some (lo, s)) = some (0x10000 + (hi - 0xd800) * 1024 + (lo - 0xdc00), s)

unfoldable pub with_low : Option (ℕ × String) → Option (ℕ × String)
unfolding joined_units read_unit
with_low none = none
with_low (some (n, s)) =
    if leb 0xd800 n && ltb n 0xdc00 then joined_units n (read_unit s) else some (n, s)

-- One character off the front of a quoted text.
unfoldable pub read_char : String → Option (ℕ × String)
unfolding with_low
read_char s = with_low (read_unit s)

four_digits_lem :
    (a b c d : ℕ) (s : String)
    → a < 16
    → b < 16
    → c < 16
    → d < 16
    → four_digits (hex_digit a ++ (hex_digit b ++ (hex_digit c ++ (hex_digit d ++ s))))
      ≡ some (a * 4096 + b * 256 + c * 16 + d, s)
unfolding four_digits
four_digits_lem a b c d s ha hb hc hd =
    rw
      (
        hex_digit-append a _ ha,
        hex_digit-append b _ hb,
        hex_digit-append c _ hc,
        hex_digit-append d s hd,
      )
      (simp (
        (hex_digit_lem a ha).1,
        (hex_digit_lem b hb).1,
        (hex_digit_lem c hc).1,
        (hex_digit_lem d hd).1,
      ))

pub one_append : (c : Char) (s : String) → (c ∷ []) ++ s ≡ c ∷ s
one_append c s = simp (cons-append, nil-append)

pub pair_append : (c d : Char) (s : String) → (c ∷ (d ∷ [])) ++ s ≡ c ∷ (d ∷ s)
pair_append c d s = simp (cons-append, nil-append)

unicode_escape-append :
    (n : ℕ) (s : String)
    → unicode_escape n ++ s
      ≡ char 0x5c tt
        ∷ (char 0x75 tt
            ∷ (hex_digit (n / 4096)
                ++ (hex_digit (n / 256 % 16)
                    ++ (hex_digit (n / 16 % 16) ++ (hex_digit (n % 16) ++ s)))))
unfolding unicode_escape
unicode_escape-append n s = simp append_assoc (pair_append _ _ _)

pub read_unit-unicode_escape :
    (n : ℕ) (s : String) → n < 0x10000 → read_unit (unicode_escape n ++ s) ≡ some (n, s)
unfolding read_unit
read_unit-unicode_escape n s h = rw (unicode_escape-append n s) (
    four_digits_lem (n / 4096) (n / 256 % 16) (n / 16 % 16) (n % 16) s (omega arith) (omega arith)
      (omega arith) (omega arith)
    ∙ ap (λ k. some (k, s)) (omega arith))
