-- ===== src/Common/Json/Calm.antt =====
-- A written text has no new line.
use Prim.Native.Nat.{ℕ}
use Prim.Native.Char.{Char, code}
use Prim.Native.String.{String, [], ◌∷◌, ◌++◌}
use mathlib.Core.Path.{◌≡◌, refl, ap}
use mathlib.Core.Logic.{inl, inr}
use mathlib.Core.Bool.{Bool, true, false, ◌&&◌, not}
use mathlib.Core.Option.{Option, none, some}
use text.Mathlib.TextLemmas.{cons-append, nil-append}
use native.Mathlib.Omega.{arith}
use alph_e.Common.Tests.{leb, nat_eq, Bool-cases, if◌then◌else◌}
use alph_e.Common.Format.{hex_digit}
use alph_e.Common.Json.{json_chars, json_char}

-- Reading a text after a place that is the begin of a line, or is not: `none` where a line begins
-- with a backtick, else whether the text ends at the begin of a line.
unfoldable pub scan : Bool → String → Option Bool
scan fresh [] = some fresh
scan fresh (c ∷ s) =
    let rest = scan (nat_eq (code c) 10) s in if fresh && nat_eq (code c) 0x60 then none else rest

unfoldable pub then_scan : Option Bool → String → Option Bool
then_scan none t = none
then_scan (some fresh) t = scan fresh t

pub scan-append : (fresh : Bool) (s t : String) → scan fresh (s ++ t) ≡ then_scan (scan fresh s) t
unfolding scan then_scan
scan-append fresh [] t = ap (scan fresh) (nil-append t)
scan-append fresh (c ∷ s) t =
    rw (cons-append c s t) (elim (Bool-cases (fresh && nat_eq (code c) 0x60)) [
      | inl h ↦ rw h refl
      | inr h ↦ rw h (scan-append (nat_eq (code c) 10) s t)
    ])

-- no new line in a text
unfoldable pub calm : String → Bool
calm [] = true
calm (c ∷ s) = not (nat_eq (code c) 10) && calm s

pub calm-append : (s t : String) → calm (s ++ t) ≡ (calm s && calm t)
unfolding calm
calm-append [] t = ap calm (nil-append t)
calm-append (c ∷ s) t = rw (cons-append c s t) (ground (arith, calm-append s t))

pub scan-calm : (s : String) → calm s ≡ true → scan false s ≡ some false
unfolding scan calm
scan-calm [] h = refl
scan-calm (c ∷ s) h = ground (arith, h, scan-calm s)

calm_if : (b : Bool) (s t : String) → calm (if b then s else t) ≡ (if b then calm s else calm t)
calm_if true s t = refl
calm_if false s t = refl

pub calm-hex_digit : (n : ℕ) → calm (hex_digit n) ≡ true
unfolding hex_digit calm
calm-hex_digit n = simp calm_if (ground arith)

if_same : (b : Bool) → (if b then true else true) ≡ true
if_same true = refl
if_same false = refl

plain_case :
    (c : Char) (t : Bool)
    → (t ≡ true)
    → (if leb 0x20 (code c) && leb (code c) 0x7e then calm (c ∷ []) else t) ≡ true
unfolding calm
plain_case c t h = ground (arith, h)

calm-json_char : (c : Char) → calm (json_char c) ≡ true
unfolding json_char calm
calm-json_char c = simp (calm_if, calm-append, if_same, plain_case c true refl)

pub calm-json_chars : (s : String) → calm (json_chars s) ≡ true
unfolding json_chars calm
calm-json_chars [] = refl
calm-json_chars (c ∷ s) = simp (calm-append, calm-json_char, calm-json_chars s)
