-- ===== src/Investigator/Merge.antt =====
-- The merged hypotheses: which one stands for an id, and that no id stands twice.
use alph_e.Common.{
  IsDistinct, ap, Bool-cases, inl, inr, ◌||◌, String, ◌≡◌, refl, sym, ◌∙◌, ◌==◌, Option, none, some,
  List, [], ◌∷◌, map, contains, Assoc, insert, lookup, lookup-insert, arith, eq_iff, if◌then◌else◌,
  next_where,
}
use alph_e.Schemas.{Hypothesis}
use alph_e.Investigator.{add_all, values, merge_hypotheses, ids}

-- the first of two optional values
abbrev pub or_else : Option Hypothesis → Option Hypothesis → Option Hypothesis
or_else none o = o
or_else (some h) o = some h

-- The last hypothesis with an id.
unfoldable pub latest : String → List Hypothesis → Option Hypothesis
latest id [] = none
latest id (h ∷ rest) = or_else (latest id rest) (if h.id == id then some h else none)

-- The one with an id.
abbrev pub with_id : String → List Hypothesis → Option Hypothesis
with_id id = next_where (λ h. h.id == id)

lookup-add_all :
    (id : String) (by_id : Assoc Hypothesis) (hs : List Hypothesis)
    → lookup id (add_all by_id hs) ≡ or_else (latest id hs) (lookup id by_id)
unfolding add_all latest
lookup-add_all id by_id [] = refl
lookup-add_all id by_id (h ∷ rest) =
    ground (arith, lookup-add_all id (insert h.id h by_id) rest, lookup-insert h.id id h by_id)

-- Every entry stands under its own id.
abbrev Keyed : Assoc Hypothesis → Type 0
Keyed [] = Unit
Keyed ((k, h) ∷ d) = (h.id ≡ k) × Keyed d

insert-Keyed : (h : Hypothesis) (d : Assoc Hypothesis) → Keyed d → Keyed (insert h.id h d)
unfolding insert
insert-Keyed h [] k = (refl, tt)
insert-Keyed h ((j, w) ∷ d) (e, k) = elim (Bool-cases (j == h.id)) [
  | inl same ↦ rw (same, insert) (sym ((eq_iff j h.id).0 same), k)
  | inr other ↦ rw (other, insert) (e, insert-Keyed h d k)
]

add_all-Keyed : (hs : List Hypothesis) (d : Assoc Hypothesis) → Keyed d → Keyed (add_all d hs)
unfolding add_all
add_all-Keyed [] d k = k
add_all-Keyed (h ∷ hs) d k = add_all-Keyed hs (insert h.id h d) (insert-Keyed h d k)

with_id-values :
    (id : String) (d : Assoc Hypothesis) → Keyed d → with_id id (values d) ≡ lookup id d
unfolding lookup
with_id-values id [] k = refl
with_id-values id ((j, h) ∷ d) (e, k) = rw (e, with_id-values id d k) refl

or_else_none : (o : Option Hypothesis) → or_else o none ≡ o
or_else_none none = refl
or_else_none (some h) = refl

abbrev keys : Assoc Hypothesis → List String
keys = map (λ entry. entry.0)

contains-keys_insert :
    (asked : String) (h : Hypothesis) (d : Assoc Hypothesis)
    → contains asked (keys (insert h.id h d)) ≡ (contains asked (keys d) || h.id == asked)
unfolding insert
contains-keys_insert asked h [] = ground arith
contains-keys_insert asked h ((j, w) ∷ d) =
    ground (arith, contains-keys_insert asked h d, eq_iff j h.id, eq_iff j asked, eq_iff h.id asked)

insert-IsDistinct :
    (h : Hypothesis) (d : Assoc Hypothesis)
    → IsDistinct (keys d)
    → IsDistinct (keys (insert h.id h d))
unfolding insert
insert-IsDistinct h [] k = (refl, tt)
insert-IsDistinct h ((j, w) ∷ d) (new, k) = elim (Bool-cases (j == h.id)) [
  | inl same ↦ rw (same, insert) (new, k)
  | inr other ↦
      rw (other, insert)
        (
          ground (arith, contains-keys_insert j h d, eq_iff j h.id, eq_iff h.id j),
          insert-IsDistinct h d k,
        )
]

add_all-IsDistinct :
    (hs : List Hypothesis) (d : Assoc Hypothesis)
    → IsDistinct (keys d)
    → IsDistinct (keys (add_all d hs))
unfolding add_all
add_all-IsDistinct [] d k = k
add_all-IsDistinct (h ∷ hs) d k = add_all-IsDistinct hs (insert h.id h d) (insert-IsDistinct h d k)

ids-values : (d : Assoc Hypothesis) → Keyed d → ids (values d) ≡ keys d
ids-values [] k = refl
ids-values ((j, h) ∷ d) (e, k) = rw (e, ids-values d k) refl

-- The merged hypotheses have distinct ids, whatever was merged.
pub merge_hypotheses-IsDistinct :
    (existing proposed : List Hypothesis) → IsDistinct (ids (merge_hypotheses existing proposed))
unfolding merge_hypotheses
merge_hypotheses-IsDistinct existing proposed =
    let d = add_all (add_all [] existing) proposed in
    let keyed : Keyed d = add_all-Keyed proposed _ (add_all-Keyed existing [] tt) in
    rw (ids-values d keyed) (add_all-IsDistinct proposed _ (add_all-IsDistinct existing [] tt))

-- For each id, the merged list has the last proposed hypothesis with it, else the last existing
-- one, else none.
pub with_id-merge_hypotheses :
    (existing proposed : List Hypothesis) (id : String)
    → with_id id (merge_hypotheses existing proposed)
      ≡ or_else (latest id proposed) (latest id existing)
unfolding merge_hypotheses lookup
with_id-merge_hypotheses existing proposed id =
    with_id-values id _ (add_all-Keyed proposed _ (add_all-Keyed existing [] tt))
    ∙ (lookup-add_all id _ proposed
        ∙ ap (or_else (latest id proposed)) (lookup-add_all id [] existing ∙ or_else_none _))
