-- ===== src/Security/Canonical/Order.antt =====
-- Sorting by the keys: the order in which a dictionary was filled is forgotten.
use Prim.Native.Nat.{Ordering, compare as compare_ℕ}
use Prim.Native.Char.{code}
use Prim.Native.String.{compare, ◌∷◌ as cons, then}
use Prim.Native.String.compare
use mathlib.Core.List.{Perm, Permᴰ}
use mathlib.Core.Path.{subst}
use native.Mathlib.Omega.{arith}
use text.Mathlib.Text.{is_lt}
use text.Mathlib.TextEquality.{Char-path}
use mathlib.Core.Bool.{Bool-set}
use mathlib.Core.Logic.{∥∥₁_elim}
use alph_e.Common.{
  String, ◌≡◌, inl, inr, refl, sym, ap, ◌∙◌, List, [], ◌∷◌, Bool, true, false, ◌&&◌, ◌||◌,
  Bool-cases, ltb, nat_eq, map, IsDistinct, contains, not, ◌==◌, eq_iff,
}
use alph_e.Schemas.{Params, ParamValue}
use alph_e.Security.Canonical.{insert_key, sort_keys, canonical}

-- `s < t` by the code points
less : String → String → Bool
less String.[] String.[] = false
less String.[] (String.◌∷◌ d t) = true
less (String.◌∷◌ c s) String.[] = false
less (String.◌∷◌ c s) (String.◌∷◌ d t) =
    ltb (code c) (code d) || (nat_eq (code c) (code d) && less s t)

is_lt-then :
    (m n : _) (o : Ordering)
    → is_lt ((then) (compare_ℕ m n) o) ≡ (ltb m n || (nat_eq m n && is_lt o))
is_lt-then m n o = go (compare_ℕ m n)
  where
    go :
        (p : Ordering)
        → is_lt ((then) p o) ≡ (
            (elim p [ Ordering.lt ↦ true | _ ↦ false ])
            || ((elim p [ Ordering.eq ↦ true | _ ↦ false ]) && is_lt o))
    go Ordering.lt = refl
    go Ordering.eq = refl
    go Ordering.gt = refl

is_lt-less : (s t : String) → is_lt (compare s t) ≡ less s t
unfolding less
is_lt-less String.[] String.[] = ap is_lt compare.nil-nil
is_lt-less String.[] (String.◌∷◌ d t) = ap is_lt (compare.nil-cons d t)
is_lt-less (String.◌∷◌ c s) String.[] = ap is_lt (compare.cons-nil c s)
is_lt-less (String.◌∷◌ c s) (String.◌∷◌ d t) =
    ap is_lt (compare.cons-cons c d s t)
    ∙ (is_lt-then (code c) (code d) (compare s t) ∙ rw (is_lt-less s t) refl)

less_trans : (s t u : String) → less s t ≡ true → less t u ≡ true → less s u ≡ true
unfolding less
less_trans (String.◌∷◌ c s) (String.◌∷◌ d t) (String.◌∷◌ e u) h k = ground (arith, less_trans s t u)
less_trans String.[] (String.◌∷◌ d t) (String.◌∷◌ e u) h k = refl
less_trans String.[] String.[] u h k = cc
less_trans (String.◌∷◌ c s) String.[] u h k = cc
less_trans s (String.◌∷◌ d t) String.[] h k = cc

less_asymm : (s t : String) → less s t ≡ true → less t s ≡ false
unfolding less
less_asymm (String.◌∷◌ c s) (String.◌∷◌ d t) h = ground (arith, less_asymm s t)
less_asymm String.[] (String.◌∷◌ d t) h = refl
less_asymm String.[] String.[] h = cc
less_asymm (String.◌∷◌ c s) String.[] h = cc

less_total : (s t : String) → less s t ≡ false → less t s ≡ false → s ≡ t
unfolding less
less_total String.[] String.[] h k = refl
less_total (String.◌∷◌ c s) (String.◌∷◌ d t) h k = λ i.
    cons (Char-path c d (ground (arith, h, k)) i)
      (less_total s t (ground (arith, h, k)) (ground (arith, h, k)) i)
less_total String.[] (String.◌∷◌ d t) h k = cc
less_total (String.◌∷◌ c s) String.[] h k = cc

before : String → String → Bool
before s t = is_lt (compare s t)

-- Of two different keys one stands before the other, and only one.
before_not : (s t : String) → (s == t) ≡ false → before s t ≡ not (before t s)
unfolding before
before_not s t ne =
    rw (is_lt-less s t, is_lt-less t s)
      (ground (arith, eq_iff s t, less_asymm s t, less_asymm t s, less_total s t))

-- What is not behind a key stands before what is behind it.
before_between : (s t u : String) → before s u ≡ true → before s t ≡ false → before t u ≡ true
unfolding before
before_between s t u h k = is_lt-less t u ∙ go (sym (is_lt-less s u) ∙ h) (sym (is_lt-less s t) ∙ k)
  where
    go : less s u ≡ true → less s t ≡ false → less t u ≡ true
    go a b = elim (Bool-cases (less t s)) [
      | inl c ↦ less_trans t s u c a
      | inr c ↦ subst (λ r. less r u ≡ true) (less_total s t b c) a
    ]

insert_key_comm :
    (j k : String) (v w : ParamValue) (ps : Params)
    → (j == k) ≡ false
    → insert_key j v (insert_key k w ps) ≡ insert_key k w (insert_key j v ps)
unfolding insert_key before
insert_key_comm j k v w [] ne = ground (arith, before_not j k ne)
insert_key_comm j k v w ((i, u) ∷ ps) ne = elim (Bool-cases (is_lt (compare i k))) [
  | inl a ↦ elim (Bool-cases (is_lt (compare i j))) [
    | inl b ↦ simp (a, b) (ap (λ l. (i, u) ∷ l) (insert_key_comm j k v w ps ne))
    | inr b ↦ let c = before_between i j k a b in simp (a, b, c)
  ]
  | inr a ↦ elim (Bool-cases (is_lt (compare i j))) [
    | inl b ↦ let c = before_between i k j b a in simp (a, b, c)
    | inr b ↦ simp (a, b) (ground (arith, before_not j k ne))
  ]
]

abbrev pub keys : Params → List String
keys ps = map (λ p. p.0) ps

contains-Permᴰ :
    (z : String) {xs ys : Params} → Permᴰ xs ys → contains z (keys xs) ≡ contains z (keys ys)
contains-Permᴰ z Permᴰ.nil = refl
contains-Permᴰ z (Permᴰ.cons e d) = rw (ap (λ p. p.0) e, contains-Permᴰ z d) refl
contains-Permᴰ z (Permᴰ.swap e f) = rw (ap (λ p. p.0) e, ap (λ p. p.0) f) (ground arith)
contains-Permᴰ z (Permᴰ.trans d₁ d₂) = contains-Permᴰ z d₁ ∙ contains-Permᴰ z d₂

IsDistinct-Permᴰ : {xs ys : Params} → Permᴰ xs ys → IsDistinct (keys xs) → IsDistinct (keys ys)
IsDistinct-Permᴰ Permᴰ.nil h = tt
IsDistinct-Permᴰ (Permᴰ.cons {a} {b} {l₁} {l₂} e d) h = (
  sym (contains-Permᴰ b.0 d) ∙ subst (λ p. contains p.0 (keys l₁) ≡ false) e h.0,
  IsDistinct-Permᴰ d h.1,
)
IsDistinct-Permᴰ (Permᴰ.swap {a} {b} {a'} {b'} {l} e f) h =
    subst (λ q. IsDistinct (keys (q ∷ b' ∷ l))) f
      (subst (λ p. IsDistinct (keys (b ∷ p ∷ l))) e
        (ground (arith, h, eq_iff a.0 b.0, eq_iff b.0 a.0), (ground (arith, h), h.1.1)))
IsDistinct-Permᴰ (Permᴰ.trans d₁ d₂) h = IsDistinct-Permᴰ d₂ (IsDistinct-Permᴰ d₁ h)

insert_entry : String × ParamValue → Params → Params
insert_entry p ps = insert_key p.0 p.1 ps

sort_keys-Permᴰ :
    {xs ys : Params} → Permᴰ xs ys → IsDistinct (keys xs) → sort_keys xs ≡ sort_keys ys
unfolding sort_keys insert_entry
sort_keys-Permᴰ Permᴰ.nil h = refl
sort_keys-Permᴰ (Permᴰ.cons {a} {b} {l₁} {l₂} e d) h =
    (λ i. insert_entry (e i) (sort_keys-Permᴰ d h.1 i))
sort_keys-Permᴰ (Permᴰ.swap {a} {b} {a'} {b'} {l} e f) h =
    insert_key_comm a.0 b.0 a.1 b.1 (sort_keys l)
      (ground (arith, h, eq_iff a.0 b.0, eq_iff b.0 a.0))
    ∙ (λ i. insert_entry (f i) (insert_entry (e i) (sort_keys l)))
sort_keys-Permᴰ (Permᴰ.trans d₁ d₂) h =
    sort_keys-Permᴰ d₁ h ∙ sort_keys-Permᴰ d₂ (IsDistinct-Permᴰ d₁ h)

-- The order of the parameters has no part in the canonical text.
pub canonical-Perm :
    (a t e r : String) (xs ys : Params)
    → Perm xs ys
    → IsDistinct (keys xs)
    → canonical a t xs e r ≡ canonical a t ys e r
unfolding canonical
canonical-Perm a t e r xs ys p h = (eq_iff _ _).0 (
    ∥∥₁_elim p (Bool-set _ _) (λ d.
      (eq_iff (canonical a t xs e r) (canonical a t ys e r)).1 (rw (sort_keys-Permᴰ d h) refl)))
