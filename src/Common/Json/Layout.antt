-- ===== src/Common/Json/Layout.antt =====
-- How a written value is laid out, and what may follow it.
use Prim.Native.Nat.{ℕ, suc}
use Prim.Native.Char.{Char, char, code}
use Prim.Native.String.{String, [], ◌∷◌, ◌++◌}
use mathlib.Core.Path.{◌≡◌, refl, sym, ap, ◌∙◌}
use mathlib.Core.Bool.{Bool, true, false, ◌||◌}
use text.Mathlib.TextLemmas.{
  cons-append, nil-append, append_assoc, append_cancel_left, head-eq_of_cons-eq,
}
use native.Mathlib.Omega.{arith}
use alph_e.Common.Tests.{nat_eq}
use alph_e.Common.Json.{json_text}
use alph_e.Common.Json.Document.{
  Value, Elements, Members, dumps, dump_items, dump_fields, new_line, spaces,
}

-- What may follow a value: nothing, a comma or a new line.
abbrev pub ends_value : String → Bool
ends_value [] = true
ends_value (c ∷ s) = nat_eq (code c) 0x2c || nat_eq (code c) 10

pub one : (c : Char) (s : String) → (c ∷ []) ++ s ≡ c ∷ s
one c s = cons-append c [] s ∙ ap (λ t. c ∷ t) (nil-append s)

-- A character that stands before a text, before another.
pub one_more : (c : Char) (s t : String) → ((c ∷ []) ++ s) ++ t ≡ c ∷ (s ++ t)
one_more c s t = append_assoc (c ∷ []) s t ∙ one c (s ++ t)

-- What closes an array or an object, from the new line on.
unfoldable pub closing : ℕ → String → String
closing level s = new_line level ++ s

closing-head : (level : ℕ) (s : String) → closing level s ≡ char 10 tt ∷ (spaces level ++ s)
unfolding closing new_line
closing-head level s = one_more (char 10 tt) (spaces level) s

pub no_closing :
    (c : Char) (level : ℕ) (s t : String)
    → nat_eq (code c) 10 ≡ false
    → (c ∷ []) ++ s ≡ closing level t
    → ⊥
no_closing c level s t h e =
    let codes = ap code (head-eq_of_cons-eq (sym (one c s) ∙ (e ∙ closing-head level t))) in
    ground (arith, h, codes)

module _ (float_text : ℕ → String) where
  pub dumps-array :
      (level : ℕ) (v : Value) (vs : Elements) (s : String)
      → dumps float_text level (Value.array (Elements.element v vs)) ++ s
        ≡ "["
          ++ (new_line (suc level)
              ++ (dumps float_text (suc level) v
                  ++ (dump_items float_text (suc level) vs ++ (new_line level ++ ("]" ++ s)))))
  unfolding dumps
  dumps-array level v vs s = simp append_assoc

  pub dumps-object :
      (level : ℕ) (k : String) (v : Value) (vs : Members) (s : String)
      → dumps float_text level (Value.object (Members.member k v vs)) ++ s
        ≡ "{"
          ++ (new_line (suc level)
              ++ (json_text k
                  ++ (": "
                      ++ (dumps float_text (suc level) v
                          ++ (dump_fields float_text (suc level) vs
                              ++ (new_line level ++ ("}" ++ s)))))))
  unfolding dumps
  dumps-object level k v vs s = simp append_assoc

  pub items-append :
      (level : ℕ) (v : Value) (vs : Elements) (s : String)
      → dump_items float_text level (Elements.element v vs) ++ s
        ≡ ","
          ++ (new_line level ++ (dumps float_text level v ++ (dump_items float_text level vs ++ s)))
  unfolding dumps
  items-append level v vs s = simp append_assoc

  pub fields-append :
      (level : ℕ) (k : String) (v : Value) (vs : Members) (s : String)
      → dump_fields float_text level (Members.member k v vs) ++ s
        ≡ ","
          ++ (new_line level
              ++ (json_text k
                  ++ (": "
                      ++ (dumps float_text level v ++ (dump_fields float_text level vs ++ s)))))
  unfolding dumps
  fields-append level k v vs s = simp append_assoc

  pub ends_items :
      (level : ℕ) (vs : Elements) (below : ℕ) (s : String)
      → ends_value (dump_items float_text level vs ++ closing below s) ≡ true
  unfolding dumps
  ends_items level Elements.no_elements below s =
      ap ends_value (nil-append (closing below s) ∙ closing-head below s)
  ends_items level (Elements.element v vs) below s =
      ap ends_value (items-append level v vs (closing below s) ∙ one (char 0x2c tt) _)

  pub ends_fields :
      (level : ℕ) (vs : Members) (below : ℕ) (s : String)
      → ends_value (dump_fields float_text level vs ++ closing below s) ≡ true
  unfolding dumps
  ends_fields level Members.no_members below s =
      ap ends_value (nil-append (closing below s) ∙ closing-head below s)
  ends_fields level (Members.member k v vs) below s =
      ap ends_value (fields-append level k v vs (closing below s) ∙ one (char 0x2c tt) _)

  pub empty_array :
      (level : ℕ) (v : Value) (vs : Elements) (s t : String)
      → dumps float_text level (Value.array Elements.no_elements) ++ s
        ≡ dumps float_text level (Value.array (Elements.element v vs)) ++ t
      → ⊥
  unfolding dumps closing
  empty_array level v vs s t e =
      no_closing (char 0x5d tt) (suc level) s _ refl
        (append_cancel_left "[" _ _ (sym (append_assoc "[" "]" s) ∙ (e ∙ dumps-array level v vs t)))

  pub empty_object :
      (level : ℕ) (k : String) (v : Value) (vs : Members) (s t : String)
      → dumps float_text level (Value.object Members.no_members) ++ s
        ≡ dumps float_text level (Value.object (Members.member k v vs)) ++ t
      → ⊥
  unfolding dumps closing
  empty_object level k v vs s t e = no_closing (char 0x7d tt) (suc level) s _ refl (
      append_cancel_left "{" _ _ (sym (append_assoc "{" "}" s) ∙ (e ∙ dumps-object level k v vs t)))
