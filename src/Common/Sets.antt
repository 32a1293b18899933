-- ===== src/Common/Sets.antt =====
-- `sorted(set(xs))` of texts, which Python orders by code points.
use Prim.Native.String.{String, compare}
use mathlib.Core.Path.{◌≡◌, refl}
use mathlib.Core.Bool.{false, ◌||◌}
use mathlib.Core.List.{List, [], ◌∷◌, ◌++◌}
use native.Mathlib.Omega.{arith}
use text.Mathlib.Text.{is_lt}
use text.Mathlib.TextEquality.{eq_iff}
use alph_e.Common.Tests.{◌==◌, if◌then◌else◌}
use alph_e.Common.Lists.{contains}

insert_sorted : String → List String → List String
insert_sorted x [] = x ∷ []
insert_sorted x (y ∷ ys) =
    if x == y then y ∷ ys else if is_lt (compare x y) then x ∷ y ∷ ys else y ∷ insert_sorted x ys

unfoldable pub sorted_set : List String → List String
unfolding insert_sorted
sorted_set [] = []
sorted_set (x ∷ xs) = insert_sorted x (sorted_set xs)

contains-insert_sorted :
    (z x : String) (ys : List String) → contains z (insert_sorted x ys) ≡ (x == z || contains z ys)
unfolding insert_sorted
contains-insert_sorted z x [] = ground arith
contains-insert_sorted z x (y ∷ ys) =
    ground (arith, contains-insert_sorted z x ys, eq_iff x y, eq_iff x z, eq_iff y z)

-- Sorting a set keeps its members.
pub contains-sorted_set :
    (z : String) (xs : List String) → contains z (sorted_set xs) ≡ contains z xs
unfolding sorted_set
contains-sorted_set z [] = refl
contains-sorted_set z (x ∷ xs) =
    ground (arith, contains-insert_sorted z x (sorted_set xs), contains-sorted_set z xs)

pub contains-append :
    (z : String) (xs ys : List String) → contains z (xs ++ ys) ≡ (contains z xs || contains z ys)
contains-append z [] ys = refl
contains-append z (x ∷ xs) ys = ground (arith, contains-append z xs ys)

-- No text stands twice.
abbrev pub IsDistinct : List String → Type 0
IsDistinct [] = Unit
IsDistinct (x ∷ xs) = (contains x xs ≡ false) × IsDistinct xs

pub IsDistinct-snoc :
    (xs : List String) (y : String)
    → IsDistinct xs
    → contains y xs ≡ false
    → IsDistinct (xs ++ y ∷ [])
IsDistinct-snoc [] y d new = (refl, tt)
IsDistinct-snoc (x ∷ xs) y d new =
    ground (arith, contains-append x xs (y ∷ []), eq_iff x y, eq_iff y x, IsDistinct-snoc xs y d.1)
