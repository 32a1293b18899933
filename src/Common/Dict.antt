-- ===== src/Common/Dict.antt =====
-- A `dict` with text keys, as an association list in the order of insertion.
use Prim.Native.String.{String}
use mathlib.Core.Path.{◌≡◌, refl}
use mathlib.Core.Option.{Option, none, some}
use mathlib.Core.List.{List, [], ◌∷◌}
use native.Mathlib.Omega.{arith}
use text.Mathlib.TextEquality.{eq_iff}
use alph_e.Common.Tests.{◌==◌, if◌then◌else◌}

abbrev pub Assoc {ℓ} : Type ℓ → Type ℓ
Assoc V = List (String × V)

module _ {ℓ} {V : Type ℓ} where
  -- `d.get(key)`
  unfoldable pub lookup : String → Assoc V → Option V
  lookup key [] = none
  lookup key ((other, value) ∷ d) = if other == key then some value else lookup key d

  -- `d[key] = new`; a key that is there keeps its place
  unfoldable pub insert : String → V → Assoc V → Assoc V
  insert key new [] = (key, new) ∷ []
  insert key new ((other, old) ∷ d) =
      if other == key then (other, new) ∷ d else (other, old) ∷ insert key new d

  -- `d.pop(key, None)`
  unfoldable pub erase : String → Assoc V → Assoc V
  erase key [] = []
  erase key ((other, value) ∷ d) =
      let rest = erase key d in if other == key then rest else (other, value) ∷ rest

  pub lookup-insert :
      (key asked : String) (new : V) (d : Assoc V)
      → lookup asked (insert key new d) ≡ (if key == asked then some new else lookup asked d)
  unfolding lookup insert
  lookup-insert key asked new [] = refl
  lookup-insert key asked new ((other, old) ∷ d) =
      ground (
        arith,
        lookup-insert key asked new d,
        eq_iff other key,
        eq_iff other asked,
        eq_iff key asked,
      )

  pub lookup-erase :
      (key asked : String) (d : Assoc V)
      → lookup asked (erase key d) ≡ (if key == asked then none else lookup asked d)
  unfolding lookup erase
  lookup-erase key asked [] = ground arith
  lookup-erase key asked ((other, old) ∷ d) =
      ground
        (arith, lookup-erase key asked d, eq_iff other key, eq_iff other asked, eq_iff key asked)
