-- ===== src/Investigator/Accepted.antt =====
-- What a tick of the investigator keeps: accepted hypotheses, and a focus that is one of them.
use mathlib.Core.Path.{subst}
use alph_e.Common.{
  ℕ, String, ◌≡◌, refl, sym, ◌∙◌, Option, none, some, Bool, true, false, ◌||◌, List, [], ◌∷◌, map,
  contains, arith, all, leb, Assoc, insert, ◌==◌, get_or,
}
use alph_e.Schemas.{IncidentState, Hypothesis, accepts_hypothesis}
use alph_e.Investigator.{
  InvestigatorOutput, InvestigatorUpdate, investigator_node, after_reply, merge_hypotheses, add_all,
  values, ids, ensure_id, choose_focus, max_attempts,
}
use alph_e.Investigator.Merge.{with_id}
use alph_e.Investigator.Tick.{IsTick, investigator_node-IsTick}

-- The focus is none, the empty text or the id of a hypothesis.
abbrev pub has_focus : Option String → List Hypothesis → Bool
has_focus none hs = true
has_focus (some focus) hs = focus == "" || contains focus (ids hs)

module _ (p : Hypothesis → Bool) where
  all-values-insert :
      (k : String) (h : Hypothesis) (d : Assoc Hypothesis)
      → p h ≡ true
      → all p (values d) ≡ true
      → all p (values (insert k h d)) ≡ true
  unfolding insert
  all-values-insert k h [] a b = ground (arith, a)
  all-values-insert k h ((j, g) ∷ d) a b = ground (arith, a, b, all-values-insert k h d)

  all-values-add_all :
      (hs : List Hypothesis) (d : Assoc Hypothesis)
      → all p hs ≡ true
      → all p (values d) ≡ true
      → all p (values (add_all d hs)) ≡ true
  unfolding add_all
  all-values-add_all [] d a b = b
  all-values-add_all (h ∷ hs) d a b =
      all-values-add_all hs (insert h.id h d) (ground (arith, a))
        (all-values-insert h.id h d (ground (arith, a)) b)

  pub all-merge_hypotheses :
      (existing proposed : List Hypothesis)
      → all p existing ≡ true
      → all p proposed ≡ true
      → all p (merge_hypotheses existing proposed) ≡ true
  unfolding merge_hypotheses
  all-merge_hypotheses existing proposed a b =
      all-values-add_all proposed _ b (all-values-add_all existing [] a refl)

pub all-ensure_id :
    (sha256 : String → String) (hs : List Hypothesis)
    → all accepts_hypothesis hs ≡ true
    → all accepts_hypothesis (map (ensure_id sha256) hs) ≡ true
unfolding ensure_id accepts_hypothesis
all-ensure_id sha256 [] a = refl
all-ensure_id sha256 (h ∷ hs) a = ground (arith, a, all-ensure_id sha256 hs)

with_id-contains :
    (id : String) (hs : List Hypothesis) (h : Hypothesis)
    → with_id id hs ≡ some h
    → contains id (ids hs) ≡ true
with_id-contains id [] h e = cc
with_id-contains id (g ∷ hs) h e = ground (arith, e, with_id-contains id hs h)

choose_focus_nil : (focus : String) → choose_focus focus [] ≡ ""
unfolding choose_focus
choose_focus_nil focus = refl

focus-IsTick :
    (sha256 : String → String) (s : IncidentState) (output : InvestigatorOutput)
    (u : InvestigatorUpdate)
    → IsTick sha256 s output u
    → has_focus u.current_focus_hypothesis_id (get_or u.hypotheses s.hypotheses) ≡ true
focus-IsTick sha256 s output u tick =
    (λ i. has_focus (tick.focused i) (get_or (tick.written i) s.hypotheses))
    ∙ ground (arith, with_id-contains tick.focus tick.merged tick.focus_hypothesis tick.found)

-- The focus that a tick chooses is the empty text, or one of the hypotheses that it writes.
pub tick-focused :
    (sha256 : String → String) (s : IncidentState) (now : ℕ) (output : InvestigatorOutput)
    (u : InvestigatorUpdate)
    → leb max_attempts s.investigation_attempts ≡ false
    → after_reply sha256 s now output ≡ u
    → has_focus u.current_focus_hypothesis_id (get_or u.hypotheses s.hypotheses) ≡ true
tick-focused sha256 s now output u early same = go output.hypotheses refl
  where
    go :
        (hs : List Hypothesis)
        → output.hypotheses ≡ hs
        → has_focus u.current_focus_hypothesis_id (get_or u.hypotheses s.hypotheses) ≡ true
    go [] e =
        subst
          (λ v. has_focus v.current_focus_hypothesis_id (get_or v.hypotheses s.hypotheses) ≡ true)
          same (unfold after_reply choose_focus in rw e refl)
    go (h ∷ hs) e =
        let (v, returned, tick) =
          investigator_node-IsTick sha256 s now output (ground (arith, early))
            (λ q. ground (arith, sym q ∙ e)) in
        let equal : v ≡ u = unfold investigator_node in ground (arith, early, same, returned) in
        subst
          (λ v. has_focus v.current_focus_hypothesis_id (get_or v.hypotheses s.hypotheses) ≡ true)
          equal (focus-IsTick sha256 s output v tick)
