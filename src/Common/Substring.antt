-- ===== src/Common/Substring.antt =====
-- A text is found in each text that has it as a part.
use Prim.Native.String.{String, [], ◌∷◌, ◌++◌}
use mathlib.Core.Path.{◌≡◌, sym, subst, ◌∙◌}
use mathlib.Core.Bool.{true, or-true}
use text.Mathlib.Text.{starts_with}
use text.Mathlib.TextEquality.{starts_with_iff, eq_iff}
use mathlib.Core.List.{List}
use mathlib.Core.Logic.{inl, inr}
use text.Mathlib.TextLemmas.{append-eq-nil_iff, cons-append, nil-append, append-nil}
use text.Mathlib.TextPositions.{starts_with-append}
use alph_e.Common.Text.{str_in, joined}
use alph_e.Common.Lists.{Elem}

str_in_of_start : (t s : String) → starts_with s t ≡ true → str_in t s ≡ true
unfolding str_in
str_in_of_start t [] h =
    let (rest, e) = (starts_with_iff [] t).0 h in (eq_iff t "").1 ((append-eq-nil_iff.0 e).0)
str_in_of_start t (c ∷ s) h = rw h

pub str_in-append : (a t b : String) → str_in t (a ++ (t ++ b)) ≡ true
unfolding str_in
str_in-append [] t b = rw nil-append (str_in_of_start t (t ++ b) (starts_with-append t b))
str_in-append (c ∷ a) t b = rw (cons-append, str_in-append a t b) (or-true _)

str_in-right : (a t s : String) → str_in t s ≡ true → str_in t (a ++ s) ≡ true
unfolding str_in
str_in-right [] t s h = rw nil-append h
str_in-right (c ∷ a) t s h = rw (cons-append, str_in-right a t s h) (or-true _)

str_in-left : (t s : String) → str_in t (t ++ s) ≡ true
str_in-left t s = subst (λ u. str_in t u ≡ true) (nil-append _) (str_in-append [] t s)

-- Each of the texts is found in what `join` makes of them.
pub str_in-joined :
    (sep t : String) (texts : List String) → Elem t texts → str_in t (joined sep texts) ≡ true
unfolding joined
str_in-joined sep t List.[] h = absurd h
str_in-joined sep t (List.◌∷◌ s List.[]) (inl e) =
    subst (λ u. str_in t u ≡ true) (append-nil t ∙ sym e) (str_in-left t "")
str_in-joined sep t (List.◌∷◌ s List.[]) (inr h) = absurd h
str_in-joined sep t (List.◌∷◌ s (List.◌∷◌ next rest)) (inl e) =
    subst (λ u. str_in t (u ++ (sep ++ joined sep (List.◌∷◌ next rest))) ≡ true) (sym e)
      (str_in-left t _)
str_in-joined sep t (List.◌∷◌ s (List.◌∷◌ next rest)) (inr h) =
    str_in-right s t _ (str_in-right sep t _ (str_in-joined sep t (List.◌∷◌ next rest) h))
