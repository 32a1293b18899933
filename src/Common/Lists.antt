-- ===== src/Common/Lists.antt =====
-- Lists over the native numbers, with Boolean tests: comprehensions, `any`, `all`, `next`, `in`.
use Prim.Native.Nat.{ℕ, zero, suc, ◌+◌}
use Prim.Native.String.{String}
use mathlib.Core.Path.{◌≡◌, refl}
use mathlib.Core.Logic.{◌↔◌, ◌⊎◌, inl, inr}
use mathlib.Core.Bool.{Bool, true, false, ◌&&◌, ◌||◌}
use mathlib.Core.Option.{Option, none, some}
use mathlib.Core.List.{List, [], ◌∷◌, ◌++◌, map}
use native.Mathlib.Omega.{arith}
use text.Mathlib.TextEquality.{eq_iff}
use alph_e.Common.Tests.{◌==◌, if◌then◌else◌}

module _ {ℓ} {A : Type ℓ} where
  abbrev pub length : List A → ℕ
  length [] = 0
  length (x ∷ xs) = suc (length xs)

  abbrev pub take : ℕ → List A → List A
  take zero xs = []
  take (suc n) [] = []
  take (suc n) (x ∷ xs) = x ∷ take n xs

  -- `[x for x in xs if p(x)]`
  abbrev pub filter : (A → Bool) → List A → List A
  filter p [] = []
  filter p (x ∷ xs) = if p x then x ∷ filter p xs else filter p xs

  abbrev pub any : (A → Bool) → List A → Bool
  any p [] = false
  any p (x ∷ xs) = p x || any p xs

  abbrev pub all : (A → Bool) → List A → Bool
  all p [] = true
  all p (x ∷ xs) = p x && all p xs

  -- `next((x for x in xs if p(x)), None)`
  abbrev pub next_where : (A → Bool) → List A → Option A
  next_where p [] = none
  next_where p (x ∷ xs) = if p x then some x else next_where p xs

  -- `bool(xs)`
  abbrev pub nonempty : List A → Bool
  nonempty [] = false
  nonempty (x ∷ xs) = true

  pub length-append : (xs ys : List A) → length (xs ++ ys) ≡ length xs + length ys
  length-append [] ys = omega arith
  length-append (x ∷ xs) ys = omega (arith, length-append xs ys)

module _ {ℓ κ} {A : Type ℓ} (P : A → Type κ) where
  abbrev pub All : List A → Type κ
  All [] = Unit
  All (x ∷ xs) = P x × All xs

  pub All-append : (xs ys : List A) → All xs → All ys → All (xs ++ ys)
  All-append [] ys h k = k
  All-append (x ∷ xs) ys h k = (h.0, All-append xs ys h.1 k)

  pub All-filter : (p : A → Bool) (xs : List A) → All xs → All (filter p xs)
  All-filter p [] h = tt
  All-filter p (x ∷ xs) h = ground (arith, All-filter p xs h.1)

pub All-map {ℓ κ} :
    {A : Type ℓ} {P Q : A → Type κ} → ((x : A) → P x → Q x) → (xs : List A) → All P xs → All Q xs
All-map f [] h = tt
All-map f (x ∷ xs) h = (f x h.0, All-map f xs h.1)

module _ {A : Type 0} (P : A → Type 0) where
  abbrev pub Any : List A → Type 0
  Any [] = ⊥
  Any (x ∷ xs) = P x ⊎ Any xs

-- `x in xs` for texts
abbrev pub contains : String → List String → Bool
contains x [] = false
contains x (y ∷ ys) = y == x || contains x ys

abbrev pub Elem : String → List String → Type 0
Elem x = Any (λ y. y ≡ x)

pub Elem-left : (x : String) (xs ys : List String) → Elem x xs → Elem x (xs ++ ys)
Elem-left x [] ys h = absurd h
Elem-left x (z ∷ xs) ys (inl e) = inl e
Elem-left x (z ∷ xs) ys (inr h) = inr (Elem-left x xs ys h)

pub Elem-right : (x : String) (xs ys : List String) → Elem x ys → Elem x (xs ++ ys)
Elem-right x [] ys h = h
Elem-right x (z ∷ xs) ys h = inr (Elem-right x xs ys h)

pub All-Elem-map : {A : Type 0} (f : A → String) (xs : List A) → All (λ x. Elem (f x) (map f xs)) xs
All-Elem-map f [] = tt
All-Elem-map f (x ∷ xs) = (inl refl, All-map (λ y h. inr h) xs (All-Elem-map f xs))

pub contains-Elem : (x : String) (xs : List String) → (contains x xs ≡ true) ↔ Elem x xs
contains-Elem x [] = ground arith
contains-Elem x (y ∷ ys) = ground (arith, contains-Elem x ys, eq_iff y x)

module _ {ℓ} {A : Type ℓ} where
  pub nonempty-append : (xs : List A) (x : A) → nonempty (xs ++ x ∷ []) ≡ true
  nonempty-append [] x = refl
  nonempty-append (y ∷ ys) x = refl
