-- ===== src/Common/Json/Fenced.antt =====
-- Where a line of a written value begins: no text in it can close a fence of three backticks.
use Prim.Native.Nat.{ℕ, zero, suc, ◌/◌}
use Prim.Native.Char.{Char, char, code}
use Prim.Native.String.{String, [], ◌∷◌, ◌++◌}
use mathlib.Core.Path.{subst, ◌≡◌, refl, sym, ap, ◌∙◌}
use mathlib.Core.Logic.{inl, inr}
use mathlib.Core.Bool.{Bool, true, false}
use mathlib.Core.Option.{none, some, none-ne-some}
use text.Mathlib.Text.{starts_with}
use text.Mathlib.TextEquality.{starts_with_iff, Char-path}
use text.Mathlib.TextPositions.{starts_with-append}
use text.Mathlib.TextLemmas.{cons-append, nil-append, append-nil, append_assoc}
use native.Mathlib.Omega.{arith}
use alph_e.Common.Tests.{nat_eq, ltb, Bool-cases}
use alph_e.Common.Format.{show_ℕ, show_from}
use alph_e.Common.Format.Digits.{starts_digit, show_ℕ-head}
use alph_e.Common.Text.{str_in}
use alph_e.Common.Json.{json_text, json_chars}
use alph_e.Common.Json.Document.{
  Value, Elements, Members, dumps, dump_items, dump_fields, new_line, spaces,
}
use alph_e.Common.Json.Calm.{
  scan, then_scan, scan-append, calm, calm-append, scan-calm, calm-hex_digit, calm-json_chars,
}

-- Texts that end within a line, wherever they begin: they begin with no backtick, and so does no
-- line of them.
Inner : String → Type 0
Inner s = (fresh : Bool) → scan fresh s ≡ some false

Inner-append : (s t : String) → Inner s → Inner t → Inner (s ++ t)
unfolding Inner then_scan
Inner-append s t h k fresh = scan-append fresh s t ∙ rw (h fresh) (k false)

Inner-calm :
    (c : Char) (s : String) → nat_eq (code c) 0x60 ≡ false → calm (c ∷ s) ≡ true → Inner (c ∷ s)
unfolding Inner scan calm
Inner-calm c s h k fresh = ground (arith, h, k, scan-calm s)

json_text-Inner : (s : String) → Inner (json_text s)
unfolding json_text calm Inner then_scan
json_text-Inner s fresh =
    let quoted : calm (json_chars s ++ "\"") ≡ true =
      calm-append (json_chars s) "\"" ∙ rw (calm-json_chars s) refl in
    scan-append fresh "\"" _
    ∙ rw (Inner-calm (char 0x22 tt) "" refl refl fresh) (scan-calm _ quoted)

spaces-calm : (n : ℕ) → calm (spaces n) ≡ true
unfolding spaces calm
spaces-calm zero = refl
spaces-calm (suc n) = calm-append "  " (spaces n) ∙ spaces-calm n

indent : (n : ℕ) → scan true ("  " ++ spaces n) ≡ some false
unfolding scan then_scan
indent n = scan-append true "  " (spaces n) ∙ scan-calm (spaces n) (spaces-calm n)

new_line-Inner : (n : ℕ) (s : String) → Inner s → Inner (new_line n ++ s)
unfolding new_line Inner then_scan scan
new_line-Inner n s h fresh =
    scan-append fresh (new_line n) s
    ∙ (ap (λ o. then_scan o s) (scan-append fresh "\n" (spaces n)) ∙ go n fresh)
  where
    go : (k : ℕ) (b : Bool) → then_scan (then_scan (scan b "\n") (spaces k)) s ≡ some false
    go zero true = h true
    go zero false = h true
    go (suc k) true = rw (indent k) (h false)
    go (suc k) false = rw (indent k) (h false)

calm-show_from : (f n : ℕ) (s : String) → calm s ≡ true → calm (show_from f n s) ≡ true
unfolding show_from
calm-show_from zero n s h = h
calm-show_from (suc f) n s h = elim (Bool-cases (ltb n 10)) [
  | inl lt ↦ rw lt (calm-append _ s ∙ simp (calm-hex_digit, h))
  | inr ge ↦ rw ge (calm-show_from f (n / 10) _ (calm-append _ s ∙ simp (calm-hex_digit, h)))
]

Inner-digit : (s : String) → starts_digit s ≡ true → calm s ≡ true → Inner s
Inner-digit [] h k = cc
Inner-digit (c ∷ s) h k = Inner-calm c s (ground (arith, h)) k

show_ℕ-Inner : (n : ℕ) → Inner (show_ℕ n)
unfolding show_ℕ calm
show_ℕ-Inner n =
    Inner-digit _ (subst (λ s. starts_digit s ≡ true) (append-nil (show_ℕ n)) (show_ℕ-head n ""))
      (calm-show_from (suc n) n "" refl)

plain_start :
    (c : Char) (s t : String)
    → nat_eq (code c) 0x60 ≡ false
    → calm (c ∷ s) ≡ true
    → Inner t
    → Inner ((c ∷ s) ++ t)
plain_start c s t h k i = Inner-append (c ∷ s) t (Inner-calm c s h k) i

module _ (float_text : ℕ → String) (floats : (x : ℕ) → Inner (float_text x)) where
  mutual
    unfolding dumps calm

    dumps-Inner : (level : ℕ) (v : Value) → Inner (dumps float_text level v)
    dumps-Inner level Value.null = Inner-calm (char 0x6e tt) "ull" refl refl
    dumps-Inner level (Value.text s) = json_text-Inner s
    dumps-Inner level (Value.number n) = show_ℕ-Inner n
    dumps-Inner level (Value.float x) = floats x
    dumps-Inner level (Value.array Elements.no_elements) = Inner-calm (char 0x5b tt) "]" refl refl
    dumps-Inner level (Value.array (Elements.element v vs)) =
        plain_start (char 0x5b tt) "" _ refl refl (
          new_line-Inner (suc level) _ (
            Inner-append _ _ (dumps-Inner (suc level) v) (
              items-Inner (suc level) vs _
                (new_line-Inner level "]" (Inner-calm (char 0x5d tt) "" refl refl)))))
    dumps-Inner level (Value.object Members.no_members) = Inner-calm (char 0x7b tt) "}" refl refl
    dumps-Inner level (Value.object (Members.member k v vs)) =
        plain_start (char 0x7b tt) "" _ refl refl (
          new_line-Inner (suc level) _ (
            Inner-append _ _ (json_text-Inner k) (
              plain_start (char 0x3a tt) " " _ refl refl (
                Inner-append _ _ (dumps-Inner (suc level) v) (
                  fields-Inner (suc level) vs _
                    (new_line-Inner level "}" (Inner-calm (char 0x7d tt) "" refl refl)))))))

    items-Inner :
        (level : ℕ) (vs : Elements) (s : String)
        → Inner s
        → Inner (dump_items float_text level vs ++ s)
    items-Inner level Elements.no_elements s h = subst Inner (sym (nil-append s)) h
    items-Inner level (Elements.element v vs) s h =
        subst Inner
          (sym (
            append_assoc "," _ s
            ∙ ap (λ t. "," ++ t)
                (append_assoc (new_line level) _ s
                  ∙ ap (λ t. new_line level ++ t) (append_assoc _ _ s))))
          (plain_start (char 0x2c tt) "" _ refl refl (
            new_line-Inner level _
              (Inner-append _ _ (dumps-Inner level v) (items-Inner level vs s h))))

    fields-Inner :
        (level : ℕ) (vs : Members) (s : String)
        → Inner s
        → Inner (dump_fields float_text level vs ++ s)
    fields-Inner level Members.no_members s h = subst Inner (sym (nil-append s)) h
    fields-Inner level (Members.member k v vs) s h = subst Inner (sym (simp append_assoc)) (
        plain_start (char 0x2c tt) "" _ refl refl (
          new_line-Inner level _ (
            Inner-append _ _ (json_text-Inner k) (
              plain_start (char 0x3a tt) " " _ refl refl
                (Inner-append _ _ (dumps-Inner level v) (fields-Inner level vs s h))))))

-- The text of a float begins with a digit, and has no new line.
pub record IsFloatWriter (float_text : ℕ → String) : Type 0 where
  pub starts : (x : ℕ) → starts_digit (float_text x) ≡ true
  pub one_line : (x : ℕ) → str_in "\n" (float_text x) ≡ false

scan_none : (fresh : Bool) (s : String) → scan fresh ("\n`" ++ s) ≡ none
unfolding scan then_scan
scan_none true s = scan-append true "\n`" s
scan_none false s = scan-append false "\n`" s

no_mark : (fresh : Bool) (s : String) (b : Bool) → scan fresh s ≡ some b → str_in "\n`" s ≡ false
unfolding str_in scan
no_mark fresh [] b h = refl
no_mark fresh (c ∷ s) b h = elim (Bool-cases (starts_with (c ∷ s) "\n`")) [
  | inl bad ↦
      let (rest, e) = (starts_with_iff (c ∷ s) "\n`").0 bad in
      absurd (none-ne-some _ (sym (scan_none fresh rest) ∙ (ap (scan fresh) e ∙ h)))
  | inr good ↦ rw good (no_mark (nat_eq (code c) 10) s b (ground (arith, h)))
]

line_start : (s : String) → starts_with (char 10 tt ∷ s) "\n" ≡ true
line_start s =
    subst (λ t. starts_with t "\n" ≡ true)
      (cons-append (char 10 tt) [] s ∙ ap (λ t. char 10 tt ∷ t) (nil-append s))
      (starts_with-append "\n" s)

calm_of_str_in : (s : String) → str_in "\n" s ≡ false → calm s ≡ true
unfolding str_in calm
calm_of_str_in [] h = refl
calm_of_str_in (c ∷ s) h = elim (Bool-cases (nat_eq (code c) 10)) [
  | inl new ↦
      let same = Char-path c (char 10 tt) (ground (arith, new)) in
      let found = subst (λ d. starts_with (d ∷ s) "\n" ≡ true) (sym same) (line_start s) in
      absurd (ground (arith, h, found))
  | inr old ↦ rw old (calm_of_str_in s (ground (arith, h)))
]

-- No line of a written value begins with a backtick, the first line included.
pub dumps-fenced :
    (float_text : ℕ → String)
    → IsFloatWriter float_text
    → (v : Value) → str_in "\n`" ("\n" ++ dumps float_text 0 v) ≡ false
unfolding Inner then_scan scan
dumps-fenced float_text floats v = no_mark false _ false (
    scan-append false "\n" (dumps float_text 0 v)
    ∙ dumps-Inner float_text
        (λ x. Inner-digit _ (floats.starts x) (calm_of_str_in _ (floats.one_line x))) 0 v true)
