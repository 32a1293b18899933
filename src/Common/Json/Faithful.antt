-- ===== src/Common/Json/Faithful.antt =====
-- Two values that are written alike are the same.
use Prim.Native.Nat.{ℕ, suc}
use Prim.Native.Char.{char, code}
use Prim.Native.String.{String, [], ◌∷◌, ◌++◌}
use mathlib.Core.Path.{◌≡◌, refl, sym, ap, ◌∙◌}
use mathlib.Core.Bool.{true, false}
use text.Mathlib.TextLemmas.{cons-append, nil-append, append_cancel_left}
use native.Mathlib.Omega.{arith}
use alph_e.Common.Tests.{if◌then◌else◌}
use alph_e.Common.Format.{show_ℕ}
use alph_e.Common.Format.Digits.{starts_digit, show_ℕ-head, show_ℕ-cancel}
use alph_e.Common.Json.Reading.{json_text-cancel, json_text-append}
use alph_e.Common.Json.Document.{Value, Elements, Members, dumps, dump_items, dump_fields, new_line}
use alph_e.Common.Json.Layout.{
  ends_value, one_more, closing, no_closing, dumps-array, dumps-object, items-append, fields-append,
  ends_items, ends_fields, empty_array, empty_object,
}

-- The text of a float begins with a digit, is no text of a natural number, and determines the float.
pub record IsExactWriter (float_text : ℕ → String) : Type 0 where
  pub starts : (x : ℕ) (s : String) → starts_digit (float_text x ++ s) ≡ true
  pub exact :
      (x y : ℕ) (s t : String)
      → ends_value s ≡ true
      → ends_value t ≡ true
      → float_text x ++ s ≡ float_text y ++ t
      → (x ≡ y) × (s ≡ t)
  pub not_whole :
      (n x : ℕ) (s t : String)
      → ends_value s ≡ true
      → ends_value t ≡ true
      → show_ℕ n ++ s ≡ float_text x ++ t
      → ⊥

-- the first character, or 1 for a digit
begins : String → ℕ
begins [] = 0
begins (c ∷ s) = if starts_digit (c ∷ s) then 1 else code c

sort_of : Value → ℕ
sort_of Value.null = 0x6e
sort_of (Value.text s) = 0x22
sort_of (Value.number n) = 1
sort_of (Value.float x) = 1
sort_of (Value.array vs) = 0x5b
sort_of (Value.object vs) = 0x7b

begins_digit : (t : String) → starts_digit t ≡ true → begins t ≡ 1
unfolding begins
begins_digit [] h = cc
begins_digit (c ∷ t) h = rw h refl

pub delimited : (s : String) → ends_value s ≡ true → starts_digit s ≡ false
delimited [] h = refl
delimited (c ∷ s) h = ground (arith, h)

module _ (float_text : ℕ → String) (floats : IsExactWriter float_text) where
  begins-dumps :
      (level : ℕ) (v : Value) (s : String) → begins (dumps float_text level v ++ s) ≡ sort_of v
  unfolding begins sort_of dumps
  begins-dumps level Value.null s = ap begins (cons-append (char 0x6e tt) "ull" s)
  begins-dumps level (Value.text t) s = ap begins (json_text-append t s)
  begins-dumps level (Value.number n) s = begins_digit (show_ℕ n ++ s) (show_ℕ-head n s)
  begins-dumps level (Value.float x) s = begins_digit (float_text x ++ s) (floats.starts x s)
  begins-dumps level (Value.array Elements.no_elements) s =
      ap begins (cons-append (char 0x5b tt) "]" s)
  begins-dumps level (Value.array (Elements.element v vs)) s =
      ap begins (one_more (char 0x5b tt) _ s)
  begins-dumps level (Value.object Members.no_members) s =
      ap begins (cons-append (char 0x7b tt) "}" s)
  begins-dumps level (Value.object (Members.member k v vs)) s =
      ap begins (one_more (char 0x7b tt) _ s)

  same_sort :
      (level : ℕ) (v w : Value) (s t : String)
      → dumps float_text level v ++ s ≡ dumps float_text level w ++ t
      → sort_of v ≡ sort_of w
  same_sort level v w s t e = sym (begins-dumps level v s) ∙ (ap begins e ∙ begins-dumps level w t)

  mutual
    unfolding closing dumps sort_of

    dumps-cancel :
        (v w : Value) (level : ℕ) (s t : String)
        → ends_value s ≡ true
        → ends_value t ≡ true
        → dumps float_text level v ++ s ≡ dumps float_text level w ++ t
        → (v ≡ w) × (s ≡ t)
    dumps-cancel Value.null Value.null level s t hs ht e = (refl, append_cancel_left "null" s t e)
    dumps-cancel (Value.text a) (Value.text b) level s t hs ht e =
        let same = json_text-cancel a b s t e in (ap Value.text same.0, same.1)
    dumps-cancel (Value.number m) (Value.number n) level s t hs ht e =
        let same = show_ℕ-cancel m n s t (delimited s hs) (delimited t ht) e in
        (ap Value.number same.0, same.1)
    dumps-cancel (Value.number m) (Value.float y) level s t hs ht e =
        absurd (floats.not_whole m y s t hs ht e)
    dumps-cancel (Value.float x) (Value.number n) level s t hs ht e =
        absurd (floats.not_whole n x t s ht hs (sym e))
    dumps-cancel (Value.float x) (Value.float y) level s t hs ht e =
        let same = floats.exact x y s t hs ht e in (ap Value.float same.0, same.1)
    dumps-cancel (Value.array Elements.no_elements) (Value.array Elements.no_elements) level s t hs
          ht e =
        (refl, append_cancel_left "[]" s t e)
    dumps-cancel (Value.array Elements.no_elements) (Value.array (Elements.element w ws)) level s t
          hs ht e =
        absurd (empty_array float_text level w ws s t e)
    dumps-cancel (Value.array (Elements.element v vs)) (Value.array Elements.no_elements) level s t
          hs ht e =
        absurd (empty_array float_text level v vs t s (sym e))
    dumps-cancel (Value.array (Elements.element v vs)) (Value.array (Elements.element w ws)) level s
          t hs ht e =
        let bodies = append_cancel_left (new_line (suc level)) _ _ (
          append_cancel_left "[" _ _ (
            sym (dumps-array float_text level v vs s)
            ∙ (e ∙ dumps-array float_text level w ws t))) in
        let heads =
          dumps-cancel v w (suc level) _ _ (ends_items float_text (suc level) vs level _)
            (ends_items float_text (suc level) ws level _) bodies in
        let tails = items-cancel vs ws (suc level) level _ _ heads.1 in
        (
          (λ i. Value.array (Elements.element (heads.0 i) (tails.0 i))),
          append_cancel_left "]" _ _ tails.1,
        )
    dumps-cancel (Value.object Members.no_members) (Value.object Members.no_members) level s t hs ht
          e =
        (refl, append_cancel_left "{}" s t e)
    dumps-cancel (Value.object Members.no_members) (Value.object (Members.member j w ws)) level s t
          hs ht e =
        absurd (empty_object float_text level j w ws s t e)
    dumps-cancel (Value.object (Members.member k v vs)) (Value.object Members.no_members) level s t
          hs ht e =
        absurd (empty_object float_text level k v vs t s (sym e))
    dumps-cancel (Value.object (Members.member k v vs)) (Value.object (Members.member j w ws)) level
          s t hs ht e =
        let bodies = append_cancel_left (new_line (suc level)) _ _ (
          append_cancel_left "{" _ _ (
            sym (dumps-object float_text level k v vs s)
            ∙ (e ∙ dumps-object float_text level j w ws t))) in
        let names = json_text-cancel k j _ _ bodies in
        let heads =
          dumps-cancel v w (suc level) _ _ (ends_fields float_text (suc level) vs level _)
            (ends_fields float_text (suc level) ws level _) (append_cancel_left ": " _ _ names.1) in
        let tails = fields-cancel vs ws (suc level) level _ _ heads.1 in
        (
          (λ i. Value.object (Members.member (names.0 i) (heads.0 i) (tails.0 i))),
          append_cancel_left "}" _ _ tails.1,
        )
    dumps-cancel v w level s t hs ht e = absurd (grind (arith, same_sort level v w s t e))

    items-cancel :
        (vs ws : Elements) (level below : ℕ) (s t : String)
        → dump_items float_text level vs ++ closing below s
          ≡ dump_items float_text level ws ++ closing below t
        → (vs ≡ ws) × (s ≡ t)
    items-cancel Elements.no_elements Elements.no_elements level below s t e =
        (refl, append_cancel_left (new_line below) s t (append_cancel_left "" _ _ e))
    items-cancel Elements.no_elements (Elements.element w ws) level below s t e = absurd (
        no_closing (char 0x2c tt) below _ s refl
          (sym (items-append float_text level w ws _) ∙ (sym e ∙ nil-append _)))
    items-cancel (Elements.element v vs) Elements.no_elements level below s t e = absurd (
        no_closing (char 0x2c tt) below _ t refl
          (sym (items-append float_text level v vs _) ∙ (e ∙ nil-append _)))
    items-cancel (Elements.element v vs) (Elements.element w ws) level below s t e =
        let bodies = append_cancel_left (new_line level) _ _ (
          append_cancel_left "," _ _ (
            sym (items-append float_text level v vs _)
            ∙ (e ∙ items-append float_text level w ws _))) in
        let heads =
          dumps-cancel v w level _ _ (ends_items float_text level vs below s)
            (ends_items float_text level ws below t) bodies in
        let tails = items-cancel vs ws level below s t heads.1 in
        ((λ i. Elements.element (heads.0 i) (tails.0 i)), tails.1)

    fields-cancel :
        (vs ws : Members) (level below : ℕ) (s t : String)
        → dump_fields float_text level vs ++ closing below s
          ≡ dump_fields float_text level ws ++ closing below t
        → (vs ≡ ws) × (s ≡ t)
    fields-cancel Members.no_members Members.no_members level below s t e =
        (refl, append_cancel_left (new_line below) s t (append_cancel_left "" _ _ e))
    fields-cancel Members.no_members (Members.member j w ws) level below s t e = absurd (
        no_closing (char 0x2c tt) below _ s refl
          (sym (fields-append float_text level j w ws _) ∙ (sym e ∙ nil-append _)))
    fields-cancel (Members.member k v vs) Members.no_members level below s t e = absurd (
        no_closing (char 0x2c tt) below _ t refl
          (sym (fields-append float_text level k v vs _) ∙ (e ∙ nil-append _)))
    fields-cancel (Members.member k v vs) (Members.member j w ws) level below s t e =
        let bodies = append_cancel_left (new_line level) _ _ (
          append_cancel_left "," _ _ (
            sym (fields-append float_text level k v vs _)
            ∙ (e ∙ fields-append float_text level j w ws _))) in
        let names = json_text-cancel k j _ _ bodies in
        let heads =
          dumps-cancel v w level _ _ (ends_fields float_text level vs below s)
            (ends_fields float_text level ws below t) (append_cancel_left ": " _ _ names.1) in
        let tails = fields-cancel vs ws level below s t heads.1 in
        ((λ i. Members.member (names.0 i) (heads.0 i) (tails.0 i)), tails.1)

  -- Two values that are written alike are the same.
  pub dumps-injective : (v w : Value) → dumps float_text 0 v ≡ dumps float_text 0 w → v ≡ w
  dumps-injective v w e = (dumps-cancel v w 0 "" "" refl refl (ap (λ t. t ++ "") e)).0
