-- ===== src/Common/Format/Digits.antt =====
-- Reading back the digits of a number.
use Prim.Native.Nat.{ℕ, zero, suc, ◌+◌, ◌-◌, ◌*◌, ◌/◌, ◌%◌, ◌<◌}
use Prim.Native.Char.{Char, code, nul}
use Prim.Native.String.{String, [], ◌∷◌, ◌++◌}
use mathlib.Core.Path.{◌≡◌, refl, sym, ap, ◌∙◌}
use mathlib.Core.Logic.{inl, inr}
use mathlib.Core.Bool.{Bool, true, false, ◌&&◌}
use text.Mathlib.TextEquality.{eq_iff}
use text.Mathlib.TextLemmas.{cons-append, nil-append, append_assoc}
use native.Mathlib.Omega.{arith}
use alph_e.Common.Tests.{
  leb, nat_eq, ltb, test_below, tested_below, ◌==◌, Bool-cases, if◌then◌else◌,
}
use alph_e.Common.Format.{hex_digit, show_from, show_ℕ}

-- The value of a digit that stands first, and the rest.
unfoldable pub hex_value : ℕ → ℕ
hex_value c = if leb c 0x39 then c - 0x30 else c - 0x57

unfoldable pub first : String → Char
first [] = nul
first (c ∷ s) = c

reads_back : ℕ → Bool
unfolding hex_digit hex_value first
reads_back n =
    hex_digit n == (first (hex_digit n) ∷ []) && nat_eq (hex_value (code (first (hex_digit n)))) n

below_16 : test_below reads_back 16 ≡ true
unfolding reads_back hex_digit
below_16 = refl

pub hex_digit_lem :
    (n : ℕ)
    → n < 16
    → (hex_digit n ≡ first (hex_digit n) ∷ []) × (hex_value (code (first (hex_digit n))) ≡ n)
hex_digit_lem n h =
    let ok = tested_below reads_back 16 n below_16 h in
    unfold reads_back in
    (ground (arith, eq_iff (hex_digit n) (first (hex_digit n) ∷ []), ok), ground (arith, ok))

pub hex_digit-append : (n : ℕ) (s : String) → n < 16 → hex_digit n ++ s ≡ first (hex_digit n) ∷ s
hex_digit-append n s h =
    ap (λ t. t ++ s) (hex_digit_lem n h).0
    ∙ (cons-append _ [] s ∙ ap (λ t. first (hex_digit n) ∷ t) (nil-append s))

abbrev pub is_digit : Char → Bool
is_digit c = leb 0x30 (code c) && leb (code c) 0x39

-- The number that begins a text, after the digits of `n`, and the rest.
read_digits : ℕ → String → ℕ × String
read_digits n [] = (n, [])
read_digits n (c ∷ s) =
    let rest = read_digits (n * 10 + (code c - 0x30)) s in if is_digit c then rest else (n, c ∷ s)

is_decimal : ℕ → Bool
unfolding hex_digit first
is_decimal n = is_digit (first (hex_digit n)) && nat_eq (code (first (hex_digit n))) (0x30 + n)

below_10 : test_below is_decimal 10 ≡ true
unfolding is_decimal hex_digit
below_10 = refl

is_decimal_lem :
    (n : ℕ)
    → n < 10
    → (is_digit (first (hex_digit n)) ≡ true) × (code (first (hex_digit n)) ≡ 0x30 + n)
is_decimal_lem n h =
    let ok = tested_below is_decimal 10 n below_10 h in
    unfold is_decimal in (ground (arith, ok), ground (arith, ok))

read_digits-digit :
    (m n : ℕ) (s : String) → n < 10 → read_digits m (hex_digit n ++ s) ≡ read_digits (m * 10 + n) s
unfolding read_digits hex_value
read_digits-digit m n s h =
    rw (hex_digit-append n s (omega arith)) (
      rw ((is_decimal_lem n h).0, (is_decimal_lem n h).1) (ap (λ k. read_digits k s) (omega arith)))

read_digits-show_from :
    (f n : ℕ) (s : String) → n < f → read_digits 0 (show_from f n s) ≡ read_digits n s
unfolding show_from
read_digits-show_from zero n s h = absurd (omega arith)
read_digits-show_from (suc f) n s h = elim (Bool-cases (ltb n 10)) [
  | inl lt ↦
      rw lt (read_digits-digit 0 n s (ground (arith, lt)) ∙ ap (λ k. read_digits k s) (omega arith))
  | inr ge ↦ rw ge (
      read_digits-show_from f (n / 10) _ (ground (arith, ge))
      ∙ (read_digits-digit (n / 10) (n % 10) s (omega arith)
          ∙ ap (λ k. read_digits k s) (omega arith)))
]

show_from-append : (f n : ℕ) (s t : String) → show_from f n s ++ t ≡ show_from f n (s ++ t)
unfolding show_from
show_from-append zero n s t = refl
show_from-append (suc f) n s t = elim (Bool-cases (ltb n 10)) [
  | inl lt ↦ rw lt (append_assoc _ _ _)
  | inr ge ↦
      rw ge (show_from-append f (n / 10) _ t ∙ ap (show_from f (n / 10)) (append_assoc _ _ _))
]

show_ℕ-append : (n : ℕ) (s : String) → show_ℕ n ++ s ≡ show_from (suc n) n s
unfolding show_ℕ
show_ℕ-append n s = show_from-append (suc n) n "" s ∙ ap (show_from (suc n) n) (nil-append s)

-- The text does not begin with a digit.
abbrev pub starts_digit : String → Bool
starts_digit [] = false
starts_digit (c ∷ s) = is_digit c

abbrev pub IsDelimited : String → Type 0
IsDelimited s = starts_digit s ≡ false

read_digits-delimited : (n : ℕ) (s : String) → IsDelimited s → read_digits n s ≡ (n, s)
unfolding read_digits
read_digits-delimited n [] h = refl
read_digits-delimited n (c ∷ s) h = rw h refl

read_digits-show_ℕ : (n : ℕ) (s : String) → IsDelimited s → read_digits 0 (show_ℕ n ++ s) ≡ (n, s)
read_digits-show_ℕ n s h =
    ap (read_digits 0) (show_ℕ-append n s)
    ∙ (read_digits-show_from (suc n) n s (omega arith) ∙ read_digits-delimited n s h)

-- Two numbers that begin two equal texts, where no digit follows, are equal, and what follows is equal.
pub show_ℕ-cancel :
    (m n : ℕ) (s t : String)
    → IsDelimited s
    → IsDelimited t
    → show_ℕ m ++ s ≡ show_ℕ n ++ t
    → (m ≡ n) × (s ≡ t)
show_ℕ-cancel m n s t hs ht e =
    let both =
      sym (read_digits-show_ℕ m s hs) ∙ (ap (read_digits 0) e ∙ read_digits-show_ℕ n t ht) in
    (ap (λ p. p.0) both, ap (λ p. p.1) both)

show_from-head : (f n : ℕ) (s : String) → n < f → starts_digit (show_from f n s) ≡ true
unfolding show_from
show_from-head zero n s h = absurd (omega arith)
show_from-head (suc f) n s h = elim (Bool-cases (ltb n 10)) [
  | inl lt ↦
      rw lt
        (rw (hex_digit-append n s (ground (arith, lt))) (is_decimal_lem n (ground (arith, lt))).0)
  | inr ge ↦ rw ge (show_from-head f (n / 10) _ (ground (arith, ge)))
]

-- A number begins with a digit.
pub show_ℕ-head : (n : ℕ) (s : String) → starts_digit (show_ℕ n ++ s) ≡ true
show_ℕ-head n s = rw (show_ℕ-append n s) (show_from-head (suc n) n s (omega arith))
