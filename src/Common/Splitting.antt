-- ===== src/Common/Splitting.antt =====
-- `splitlines` undoes the joining of lines.
use Prim.Native.Char.{Char, code}
use Prim.Native.String.{String, [], ◌∷◌, ◌++◌}
use mathlib.Core.Path.{◌≡◌, refl, sym, ap, ◌∙◌}
use mathlib.Core.Logic.{◌≢◌}
use mathlib.Core.Bool.{Bool, true, false, not, ◌&&◌}
use mathlib.Core.List.{List}
use native.Mathlib.Omega.{arith}
use text.Mathlib.TextEquality.{eq_iff}
use text.Mathlib.TextLemmas.{cons-append, nil-append}
use alph_e.Common.Tests.{nat_eq}
use alph_e.Common.Text.{joined}
use alph_e.Common.Lines.{
  before_first, split_at, is_break, unify_breaks, drop_last_empty, splitlines,
}

-- No character ends a line.
abbrev pub IsLine : String → Type 0
IsLine [] = Unit
IsLine (c ∷ s) = (is_break c ≡ false) × IsLine s

-- The same as a test.
unfoldable pub is_line : String → Bool
is_line [] = true
is_line (c ∷ s) = not (is_break c) && is_line s

pub is_line_lem : (s : String) → is_line s ≡ true → IsLine s
unfolding is_line
is_line_lem [] h = tt
is_line_lem (c ∷ s) h = (ground (arith, h), is_line_lem s (ground (arith, h)))

break_of_return : (c : Char) → is_break c ≡ false → nat_eq (code c) 13 ≡ false
unfolding is_break
break_of_return c h = ground (arith, h)

split_at-line : (s : String) → IsLine s → split_at is_break s ≡ List.◌∷◌ s List.[]
unfolding split_at before_first
split_at-line [] h = refl
split_at-line (c ∷ s) h = rw (split_at-line s h.1, h.0) refl

abbrev newline : Char
newline = "\n"

line_feed : (t : String) → "\n" ++ t ≡ newline ∷ t
line_feed t = cons-append newline [] t ∙ rw nil-append refl

split_at-append :
    (s t : String)
    → IsLine s
    → split_at is_break (s ++ ("\n" ++ t)) ≡ List.◌∷◌ s (split_at is_break t)
unfolding split_at before_first is_break
split_at-append [] t h = rw (nil-append, line_feed t) refl
split_at-append (c ∷ s) t h =
    rw (cons-append c s _, split_at, split_at-append s t h.1) (rw h.0 refl)

-- Lines, the last of them not empty.
abbrev pub AreLines : List String → Type 0
AreLines List.[] = Unit
AreLines (List.◌∷◌ s List.[]) = IsLine s × (s ≢ "")
AreLines (List.◌∷◌ s (List.◌∷◌ t rest)) = IsLine s × AreLines (List.◌∷◌ t rest)

unify-line : (s : String) → IsLine s → unify_breaks s ≡ s
unfolding unify_breaks
unify-line [] h = refl
unify-line (c ∷ s) h = rw (unify-line s h.1, break_of_return c h.0) refl

unify-append :
    (s t : String) → IsLine s → unify_breaks (s ++ ("\n" ++ t)) ≡ s ++ ("\n" ++ unify_breaks t)
unfolding unify_breaks
unify-append [] t h =
    rw (nil-append ("\n" ++ t), line_feed t) (sym (nil-append _ ∙ line_feed (unify_breaks t)))
unify-append (c ∷ s) t h =
    rw (cons-append c s ("\n" ++ t), unify_breaks, unify-append s t h.1, break_of_return c h.0)
      (sym (cons-append c s _))

unify-joined : (xs : List String) → AreLines xs → unify_breaks (joined "\n" xs) ≡ joined "\n" xs
unfolding joined unify_breaks
unify-joined List.[] h = refl
unify-joined (List.◌∷◌ s List.[]) h = unify-line s h.0
unify-joined (List.◌∷◌ s (List.◌∷◌ t rest)) h =
    unify-append s (joined "\n" (List.◌∷◌ t rest)) h.0
    ∙ ap (λ u. s ++ ("\n" ++ u)) (unify-joined (List.◌∷◌ t rest) h.1)

drop-lines : (xs : List String) → AreLines xs → drop_last_empty xs ≡ xs
unfolding drop_last_empty
drop-lines List.[] h = refl
drop-lines (List.◌∷◌ s List.[]) h = ground (arith, h.1, eq_iff s "")
drop-lines (List.◌∷◌ s (List.◌∷◌ t rest)) h =
    ap (λ ys. List.◌∷◌ s ys) (drop-lines (List.◌∷◌ t rest) h.1)

split_at-joined :
    (s : String) (xs : List String)
    → AreLines (List.◌∷◌ s xs)
    → split_at is_break (joined "\n" (List.◌∷◌ s xs)) ≡ List.◌∷◌ s xs
unfolding joined
split_at-joined s List.[] h = split_at-line s h.0
split_at-joined s (List.◌∷◌ t rest) h =
    split_at-append s (joined "\n" (List.◌∷◌ t rest)) h.0
    ∙ ap (λ ys. List.◌∷◌ s ys) (split_at-joined t rest h.1)

-- Lines that are joined by line feeds, the last of them not empty, are what `splitlines` gives back.
pub splitlines-joined : (xs : List String) → AreLines xs → splitlines (joined "\n" xs) ≡ xs
unfolding splitlines joined split_at unify_breaks drop_last_empty
splitlines-joined List.[] h = refl
splitlines-joined (List.◌∷◌ s xs) h =
    rw (unify-joined (List.◌∷◌ s xs) h, split_at-joined s xs h) (drop-lines (List.◌∷◌ s xs) h)
