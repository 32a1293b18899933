-- ===== src/Security/Canonical/Injective.antt =====
-- Two payloads with the same canonical text are the same, but for the order of the parameters.
use Prim.Native.Char.{code, char}
use Prim.Native.String.{[] as nil, ◌∷◌ as cons, ◌++◌}
use mathlib.Core.Path.{subst}
use mathlib.Core.List.{Perm}
use mathlib.Core.List.Perm
use text.Mathlib.Text.{is_lt}
use Prim.Native.String.{compare}
use text.Mathlib.TextLemmas.{
  cons-append, nil-append, append_assoc, append_cancel_left, head-eq_of_cons-eq, tail-eq_of_cons-eq,
}
use alph_e.Common.{
  ℕ, suc, String, ◌≡◌, inl, inr, refl, sym, ap, ◌∙◌, [], ◌∷◌, true, false, if◌then◌else◌,
  Bool-cases, arith, json_text, show_ℕ, json_text-cancel, json_text-append, IsDelimited,
  starts_digit, show_ℕ-cancel, show_ℕ-head,
}
use alph_e.Schemas.{Params, ParamValue}
use alph_e.Security.Canonical.{json_value, insert_key, sort_keys, json_items, canonical}

-- The character that a value begins with: a quote, a minus, the letters of the flags, a digit.
begins : String → ℕ
begins String.[] = 0
begins (String.◌∷◌ c s) = if starts_digit (cons c s) then 1 else code c

sort_of : ParamValue → ℕ
sort_of (ParamValue.text s) = 0x22
sort_of (ParamValue.plus n) = 1
sort_of (ParamValue.minus n) = 0x2d
sort_of (ParamValue.flag true) = 0x74
sort_of (ParamValue.flag false) = 0x66

begins_digit : (t : String) → starts_digit t ≡ true → begins t ≡ 1
unfolding begins
begins_digit String.[] h = cc
begins_digit (String.◌∷◌ c t) h = rw h refl

minus-append : (n : ℕ) (s : String) → ("-" ++ show_ℕ n) ++ s ≡ cons (char 0x2d tt) (show_ℕ n ++ s)
minus-append n s =
    append_assoc _ _ _ ∙ (cons-append _ nil _ ∙ ap (cons (char 0x2d tt)) (nil-append _))

begins-json_value : (v : ParamValue) (s : String) → begins (json_value v ++ s) ≡ sort_of v
unfolding begins sort_of json_value
begins-json_value (ParamValue.text t) s = ap begins (json_text-append t s)
begins-json_value (ParamValue.plus n) s = begins_digit (show_ℕ n ++ s) (show_ℕ-head n s)
begins-json_value (ParamValue.minus n) s = ap begins (minus-append (suc n) s)
begins-json_value (ParamValue.flag true) s = ap begins (cons-append (char 0x74 tt) "rue" s)
begins-json_value (ParamValue.flag false) s = ap begins (cons-append (char 0x66 tt) "alse" s)

same_sort :
    (v w : ParamValue) (s t : String)
    → json_value v ++ s ≡ json_value w ++ t
    → sort_of v ≡ sort_of w
same_sort v w s t e = sym (begins-json_value v s) ∙ (ap begins e ∙ begins-json_value w t)

-- Two values that are written alike before a text that does not begin with a digit are the same.
json_value-cancel :
    (v w : ParamValue) (s t : String)
    → IsDelimited s
    → IsDelimited t
    → json_value v ++ s ≡ json_value w ++ t
    → (v ≡ w) × (s ≡ t)
unfolding json_value sort_of
json_value-cancel (ParamValue.text a) (ParamValue.text b) s t hs ht e =
    let same = json_text-cancel a b s t e in (ap ParamValue.text same.0, same.1)
json_value-cancel (ParamValue.plus m) (ParamValue.plus n) s t hs ht e =
    let same = show_ℕ-cancel m n s t hs ht e in (ap ParamValue.plus same.0, same.1)
json_value-cancel (ParamValue.minus m) (ParamValue.minus n) s t hs ht e =
    let digits = tail-eq_of_cons-eq (sym (minus-append (suc m) s) ∙ (e ∙ minus-append (suc n) t)) in
    let same = show_ℕ-cancel (suc m) (suc n) s t hs ht digits in
    (ap ParamValue.minus (omega (arith, same.0)), same.1)
json_value-cancel (ParamValue.flag true) (ParamValue.flag true) s t hs ht e =
    (refl, append_cancel_left "true" s t e)
json_value-cancel (ParamValue.flag false) (ParamValue.flag false) s t hs ht e =
    (refl, append_cancel_left "false" s t e)
json_value-cancel v w s t hs ht e = absurd (grind (arith, same_sort v w s t e))

-- What stands after the first parameter.
tail_text : Params → String
unfolding json_items
tail_text [] = ""
tail_text (p ∷ rest) = "," ++ json_items (p ∷ rest)

json_items-cons :
    (k : String) (v : ParamValue) (rest : Params) (s : String)
    → json_items ((k, v) ∷ rest) ++ s
      ≡ json_text k ++ (":" ++ (json_value v ++ (tail_text rest ++ s)))
unfolding json_items tail_text
json_items-cons k v [] s = simp (append_assoc, nil-append)
json_items-cons k v (p ∷ rest) s = simp append_assoc

-- The parameters end at a brace.
close : String → String
close s = cons (char 0x7d tt) s

tail_text-append :
    (p : String × ParamValue) (rest : Params) (s : String)
    → tail_text (p ∷ rest) ++ s ≡ cons (char 0x2c tt) (json_items (p ∷ rest) ++ s)
unfolding tail_text
tail_text-append p rest s =
    append_assoc _ _ _
    ∙ (cons-append (char 0x2c tt) nil _ ∙ ap (cons (char 0x2c tt)) (nil-append _))

tail_text-nil : (s : String) → tail_text [] ++ close s ≡ close s
unfolding tail_text
tail_text-nil s = nil-append (close s)

tail_text-IsDelimited : (rest : Params) (s : String) → IsDelimited (tail_text rest ++ close s)
unfolding close
tail_text-IsDelimited [] s = rw (tail_text-nil s) refl
tail_text-IsDelimited (p ∷ rest) s = rw (tail_text-append p rest (close s)) refl

open_comma :
    (p : String × ParamValue) (xs : Params) (s t : String)
    → tail_text (p ∷ xs) ++ close s ≡ tail_text [] ++ close t
    → ⊥
unfolding close
open_comma p xs s t e =
    let at_comma = sym (tail_text-append p xs (close s)) ∙ (e ∙ tail_text-nil t) in
    let codes = ap code (head-eq_of_cons-eq at_comma) in omega (arith, codes)

first_item :
    (k j : String) (v w : ParamValue) (xs ys : Params) (s t : String)
    → json_items ((k, v) ∷ xs) ++ close s ≡ json_items ((j, w) ∷ ys) ++ close t
    → (k ≡ j) × (v ≡ w) × (tail_text xs ++ close s ≡ tail_text ys ++ close t)
first_item k j v w xs ys s t e =
    let keys =
      json_text-cancel k j _ _
        (sym (json_items-cons k v xs (close s)) ∙ (e ∙ json_items-cons j w ys (close t))) in
    let values =
      json_value-cancel v w _ _ (tail_text-IsDelimited xs s) (tail_text-IsDelimited ys t)
        (append_cancel_left ":" _ _ keys.1) in
    (keys.0, values.0, values.1)

tail_text-cancel :
    (xs ys : Params) (s t : String)
    → tail_text xs ++ close s ≡ tail_text ys ++ close t
    → (xs ≡ ys) × (s ≡ t)
unfolding close
tail_text-cancel [] [] s t e =
    (refl, tail-eq_of_cons-eq (sym (tail_text-nil s) ∙ (e ∙ tail_text-nil t)))
tail_text-cancel [] (q ∷ ys) s t e = absurd (open_comma q ys t s (sym e))
tail_text-cancel (p ∷ xs) [] s t e = absurd (open_comma p xs s t e)
tail_text-cancel ((k, v) ∷ xs) ((j, w) ∷ ys) s t e =
    let items =
      tail-eq_of_cons-eq
        (sym (tail_text-append (k, v) xs (close s)) ∙ (e ∙ tail_text-append (j, w) ys (close t))) in
    let item = first_item k j v w xs ys s t items in
    let rest = tail_text-cancel xs ys s t item.2 in (λ i. (item.0 i, item.1 i) ∷ rest.0 i, rest.1)

open_brace :
    (k : String) (v : ParamValue) (xs : Params) (s t : String)
    → json_items ((k, v) ∷ xs) ++ close s ≡ json_items [] ++ close t
    → ⊥
unfolding close json_items
open_brace k v xs s t e =
    let texts = sym (json_items-cons k v xs (close s)) ∙ (e ∙ nil-append (close t)) in
    let quoted = sym (json_text-append k _) ∙ texts in
    let codes = ap code (head-eq_of_cons-eq quoted) in omega (arith, codes)

-- Two objects that are written alike have the same entries in the same order.
json_items-cancel :
    (xs ys : Params) (s t : String)
    → json_items xs ++ close s ≡ json_items ys ++ close t
    → (xs ≡ ys) × (s ≡ t)
unfolding close json_items
json_items-cancel [] [] s t e = (refl, tail-eq_of_cons-eq (append_cancel_left "" _ _ e))
json_items-cancel [] ((j, w) ∷ ys) s t e = absurd (open_brace j w ys t s (sym e))
json_items-cancel ((k, v) ∷ xs) [] s t e = absurd (open_brace k v xs s t e)
json_items-cancel ((k, v) ∷ xs) ((j, w) ∷ ys) s t e =
    let item = first_item k j v w xs ys s t e in
    let rest = tail_text-cancel xs ys s t item.2 in (λ i. (item.0 i, item.1 i) ∷ rest.0 i, rest.1)

insert_key-Perm :
    (k : String) (v : ParamValue) (ps : Params) → Perm (insert_key k v ps) ((k, v) ∷ ps)
unfolding insert_key
insert_key-Perm k v [] = Perm.refl _
insert_key-Perm k v ((j, w) ∷ ps) = elim (Bool-cases (is_lt (compare j k))) [
  | inl h ↦ rw h (Perm.trans (Perm.cons (j, w) (insert_key-Perm k v ps)) (Perm.swap _ _ _))
  | inr h ↦ rw h (Perm.refl _)
]

-- Sorting the keys keeps the entries.
sort_keys-Perm : (ps : Params) → Perm (sort_keys ps) ps
unfolding sort_keys
sort_keys-Perm [] = Perm.refl _
sort_keys-Perm ((k, v) ∷ ps) =
    Perm.trans (insert_key-Perm k v (sort_keys ps)) (Perm.cons (k, v) (sort_keys-Perm ps))

close-append :
    (ps : Params) (s : String)
    → json_items ps ++ ("},\"rollback_hint\":" ++ s)
      ≡ json_items ps ++ close (",\"rollback_hint\":" ++ s)
unfolding close
close-append ps s =
    ap (λ t. json_items ps ++ t) (cons-append (char 0x7d tt) ",\"rollback_hint\":" s)

-- Two payloads that have the same canonical text.
pub canonical-injective :
    (a b t u e f r q : String) (xs ys : Params)
    → canonical a t xs e r ≡ canonical b u ys f q
    → (a ≡ b) × (t ≡ u) × Perm xs ys × (e ≡ f) × (r ≡ q)
unfolding canonical
canonical-injective a b t u e f r q xs ys h =
    let types = json_text-cancel a b _ _ (append_cancel_left "{\"action_type\":" _ _ h) in
    let effects =
      json_text-cancel e f _ _ (append_cancel_left ",\"expected_effect\":" _ _ types.1) in
    let params = append_cancel_left ",\"parameters\":{" _ _ effects.1 in
    let items =
      json_items-cancel _ _ _ _
        (sym (close-append (sort_keys xs) _) ∙ (params ∙ close-append (sort_keys ys) _)) in
    let hints = json_text-cancel r q _ _ (append_cancel_left ",\"rollback_hint\":" _ _ items.1) in
    let targets = json_text-cancel t u _ _ (append_cancel_left ",\"target\":" _ _ hints.1) in
    let order =
      Perm.trans (Perm.symm (sort_keys-Perm xs))
        (subst (λ ps. Perm ps ys) (sym items.0) (sort_keys-Perm ys)) in
    (types.0, targets.0, order, effects.0, hints.0)
