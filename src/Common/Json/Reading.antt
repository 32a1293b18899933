-- ===== src/Common/Json/Reading.antt =====
-- Reading back what Common/Json writes: two texts that are written alike are the same.
use Prim.Native.Nat.{ℕ, ◌+◌, ◌-◌, ◌*◌, ◌/◌, ◌%◌, ◌<◌, ◌≤◌}
use Prim.Native.Char.{Char, char, code}
use Prim.Native.String.{String, [], ◌∷◌, ◌++◌}
use mathlib.Core.Path.{◌≡◌, refl, sym, ap, ◌∙◌}
use mathlib.Core.Logic.{inl, inr}
use mathlib.Core.Bool.{true, false, ◌&&◌}
use mathlib.Core.Option.{none, some, some-injective, none-ne-some}
use text.Mathlib.TextEquality.{Char-path}
use text.Mathlib.TextLemmas.{nil-append, append_assoc, tail-eq_of_cons-eq}
use native.Mathlib.Omega.{arith}
use alph_e.Common.Tests.{ltb, leb, nat_eq, Bool-cases}
use alph_e.Common.Json.{unicode_escape, json_char, json_chars, json_text}
use alph_e.Common.Json.Units.{
  InRange, code-InRange, escaped, after_backslash, read_unit, joined_units, with_low, read_char,
  one_append, pair_append, read_unit-unicode_escape,
}

-- The short escapes, and the numbers of the characters that they stand for.
short :
    (c : Char) (s : String) (k : ℕ) (e : Char)
    → json_char c ≡ char 0x5c tt ∷ (e ∷ [])
    → code c ≡ k
    → with_low (after_backslash (e ∷ s)) ≡ some (k, s)
    → read_char (json_char c ++ s) ≡ some (code c, s)
unfolding read_char read_unit
short c s k e h hk he = rw (h, hk) (rw pair_append he)

plain :
    (c : Char) (s : String)
    → json_char c ≡ c ∷ []
    → nat_eq (code c) 0x22 ≡ false
    → nat_eq (code c) 0x5c ≡ false
    → leb (code c) 0x7e ≡ true
    → read_char (json_char c ++ s) ≡ some (code c, s)
unfolding read_char read_unit with_low
plain c s h h1 h2 h3 = rw (h, one_append c s, h1, h2) (ground (arith, h3))

low_escape :
    (c : Char) (s : String)
    → json_char c ≡ unicode_escape (code c)
    → ltb (code c) 0x10000 ≡ true
    → read_char (json_char c ++ s) ≡ some (code c, s)
unfolding read_char with_low InRange
low_escape c s h lt =
    rw (h, read_unit-unicode_escape (code c) s (ground (arith, lt)))
      (ground (arith, code-InRange c))

read_pair :
    (hi lo : ℕ) (s : String)
    → 0xd800 ≤ hi
    → hi < 0xdc00
    → lo < 0xe000
    → read_char (unicode_escape hi ++ (unicode_escape lo ++ s))
      ≡ some (0x10000 + (hi - 0xd800) * 1024 + (lo - 0xdc00), s)
unfolding read_char with_low joined_units
read_pair hi lo s ha hb hc =
    rw
      (
        read_unit-unicode_escape hi (unicode_escape lo ++ s) (omega arith),
        read_unit-unicode_escape lo s (omega arith),
      )
      (ground arith)

surrogates :
    (c : Char) (s : String)
    → json_char c
      ≡ unicode_escape (0xd800 + (code c - 0x10000) / 1024)
        ++ unicode_escape (0xdc00 + (code c - 0x10000) % 1024)
    → ltb (code c) 0x10000 ≡ false
    → read_char (json_char c ++ s) ≡ some (code c, s)
unfolding InRange
surrogates c s h lt =
    let range : (0x10000 ≤ code c) × (code c < 0x110000) = ground (arith, lt, code-InRange c) in
    rw (h, append_assoc)
      (read_pair _ _ s (omega arith) (omega (arith, range)) (omega arith)
        ∙ ap (λ k. some (k, s)) (omega (arith, range)))

-- A character and the text after it, off what was written of them.
read_char-json_char : (c : Char) (s : String) → read_char (json_char c ++ s) ≡ some (code c, s)
unfolding json_char after_backslash escaped with_low
read_char-json_char c s = elim (Bool-cases (nat_eq (code c) 0x22)) [
  | inl h ↦ short c s 0x22 (char 0x22 tt) (rw h refl) (ground (arith, h)) refl
  | inr h1 ↦ elim (Bool-cases (nat_eq (code c) 0x5c)) [
    | inl h ↦ short c s 0x5c (char 0x5c tt) (rw (h1, h) refl) (ground (arith, h)) refl
    | inr h2 ↦ elim (Bool-cases (nat_eq (code c) 10)) [
      | inl h ↦ short c s 10 (char 0x6e tt) (rw (h1, h2, h) refl) (ground (arith, h)) refl
      | inr h3 ↦ elim (Bool-cases (nat_eq (code c) 13)) [
        | inl h ↦ short c s 13 (char 0x72 tt) (rw (h1, h2, h3, h) refl) (ground (arith, h)) refl
        | inr h4 ↦ elim (Bool-cases (nat_eq (code c) 9)) [
          | inl h ↦
              short c s 9 (char 0x74 tt) (rw (h1, h2, h3, h4, h) refl) (ground (arith, h)) refl
          | inr h5 ↦ elim (Bool-cases (nat_eq (code c) 12)) [
            | inl h ↦
                short c s 12 (char 0x66 tt) (rw (h1, h2, h3, h4, h5, h) refl) (ground (arith, h))
                  refl
            | inr h6 ↦ elim (Bool-cases (nat_eq (code c) 8)) [
              | inl h ↦
                  short c s 8 (char 0x62 tt) (rw (h1, h2, h3, h4, h5, h6, h) refl)
                    (ground (arith, h)) refl
              | inr h7 ↦ elim (Bool-cases (leb 0x20 (code c) && leb (code c) 0x7e)) [
                | inl h ↦
                    plain c s (rw (h1, h2, h3, h4, h5, h6, h7, h) refl) h1 h2 (ground (arith, h))
                | inr h8 ↦ elim (Bool-cases (ltb (code c) 0x10000)) [
                  | inl h ↦ low_escape c s (rw (h1, h2, h3, h4, h5, h6, h7, h8, h) refl) h
                  | inr h ↦ surrogates c s (rw (h1, h2, h3, h4, h5, h6, h7, h8, h) refl) h
                ]
              ]
            ]
          ]
        ]
      ]
    ]
  ]
]

abbrev pub quote : String → String
quote s = char 0x22 tt ∷ s

read_char-quote : (s : String) → read_char (quote s) ≡ none
unfolding read_char read_unit with_low
read_char-quote s = refl

json_char-cancel :
    (c d : Char) (s t : String) → json_char c ++ s ≡ json_char d ++ t → (c ≡ d) × (s ≡ t)
json_char-cancel c d s t e =
    let read = sym (read_char-json_char c s) ∙ (ap read_char e ∙ read_char-json_char d t) in
    let both = some-injective _ _ read in (Char-path c d (ap (λ p. p.0) both), ap (λ p. p.1) both)

not_quote : (c : Char) (s t : String) → quote s ≡ json_char c ++ t → ⊥
not_quote c s t e =
    none-ne-some _ (sym (read_char-quote s) ∙ (ap read_char e ∙ read_char-json_char c t))

json_chars-cancel :
    (s t u v : String) → json_chars s ++ quote u ≡ json_chars t ++ quote v → (s ≡ t) × (u ≡ v)
unfolding json_chars
json_chars-cancel [] [] u v e = (refl, tail-eq_of_cons-eq (sym (nil-append _) ∙ (e ∙ nil-append _)))
json_chars-cancel [] (d ∷ t) u v e =
    absurd (not_quote d u _ (sym (nil-append _) ∙ (e ∙ append_assoc _ _ _)))
json_chars-cancel (c ∷ s) [] u v e =
    absurd (not_quote c v _ (sym (nil-append _) ∙ (sym e ∙ append_assoc _ _ _)))
json_chars-cancel (c ∷ s) (d ∷ t) u v e =
    let first = json_char-cancel c d _ _ (sym (append_assoc _ _ _) ∙ (e ∙ append_assoc _ _ _)) in
    let rest = json_chars-cancel s t u v first.1 in (λ i. first.0 i ∷ rest.0 i, rest.1)

pub json_text-append : (s u : String) → json_text s ++ u ≡ quote (json_chars s ++ quote u)
unfolding json_text
json_text-append s u =
    simp append_assoc (one_append _ _ ∙ ap (λ t. quote (json_chars s ++ t)) (one_append _ u))

-- Two written texts that begin two equal texts are of equal texts, and what follows is equal.
pub json_text-cancel : (s t u v : String) → json_text s ++ u ≡ json_text t ++ v → (s ≡ t) × (u ≡ v)
json_text-cancel s t u v e =
    json_chars-cancel s t u v
      (tail-eq_of_cons-eq (sym (json_text-append s u) ∙ (e ∙ json_text-append t v)))
