-- ===== src/Investigator/Tick.antt =====
-- One tick of the investigator: its counter, its cap, and a focus that the collectors can find.
use alph_e.Common.{
  IsDistinct, ℕ, ◌+◌, ◌<◌, String, ◌≡◌, ◌≢◌, refl, ◌==◌, Option, none, some, Bool, true, false,
  List, [], ◌∷◌, map, contains, ok, arith, eq_iff, if◌then◌else◌, inl, inr, Bool-cases, ltb,
}
use alph_e.Schemas.{IncidentState, Hypothesis}
use alph_e.Investigator.{
  InvestigatorOutput, InvestigatorUpdate, investigator_node, after_reply, choose_focus, best_of,
  ids, merge_hypotheses, ensure_id,
}
use alph_e.Investigator.Merge.{
  latest, with_id, or_else, with_id-merge_hypotheses, merge_hypotheses-IsDistinct,
}

best_of-Elem :
    (best : Hypothesis) (hs : List Hypothesis)
    → contains (best_of best hs).id (ids (best ∷ hs)) ≡ true
unfolding best_of
best_of-Elem best [] = ground (arith, eq_iff best.id best.id)
best_of-Elem best (h ∷ hs) = go (ltb best.score h.score) (best_of-Elem h hs) (best_of-Elem best hs)
  where
    go :
        (b : Bool)
        → contains (best_of h hs).id (ids (h ∷ hs)) ≡ true
        → contains (best_of best hs).id (ids (best ∷ hs)) ≡ true
        → contains (best_of (if b then h else best) hs).id (ids (best ∷ h ∷ hs)) ≡ true
    go true k l = ground (arith, k)
    go false k l = ground (arith, l)

choose_focus-Elem :
    (focus : String) (proposed : List Hypothesis)
    → proposed ≢ []
    → contains (choose_focus focus proposed) (ids proposed) ≡ true
unfolding choose_focus
choose_focus-Elem focus [] h = absurd (h refl)
choose_focus-Elem focus (p ∷ ps) h = ground (arith, best_of-Elem p ps)

latest_of_contains :
    (id : String) (hs : List Hypothesis)
    → contains id (ids hs) ≡ true
    → (h : Hypothesis) × (latest id hs ≡ some h)
unfolding latest
latest_of_contains id [] e = absurd (ground arith)
latest_of_contains id (h ∷ hs) e = elim (Bool-cases (contains id (ids hs))) [
  | inl later ↦ let (k, q) = latest_of_contains id hs later in (k, rw (q, latest) refl)
  | inr absent ↦ go (latest id hs) (ground arith)
]
  where
    go :
        (o : Option Hypothesis)
        → (h.id == id) ≡ true
        → (k : Hypothesis) × (or_else o (if h.id == id then some h else none) ≡ some k)
    go none same = (h, rw same refl)
    go (some k) same = (k, refl)

-- What a tick leaves.
pub record IsTick (sha256 : String → String) (state : IncidentState) (output : InvestigatorOutput)
    (u : InvestigatorUpdate) : Type 0 where
  pub counted : u.investigation_attempts ≡ state.investigation_attempts + 1
  pub merged : List Hypothesis
  pub written : u.hypotheses ≡ some merged
  pub distinct : IsDistinct (ids merged)
  pub each :
      (id : String)
      → with_id id merged
        ≡ or_else
            (latest id (map (ensure_id sha256) output.hypotheses))
            (latest id state.hypotheses)
  pub focus : String
  pub focused : u.current_focus_hypothesis_id ≡ some focus
  pub focus_hypothesis : Hypothesis
  pub found : with_id focus merged ≡ some focus_hypothesis

map-nonempty :
    (sha256 : String → String) (hs : List Hypothesis) → hs ≢ [] → map (ensure_id sha256) hs ≢ []
map-nonempty sha256 [] h = h
map-nonempty sha256 (x ∷ hs) h = λ e. ground arith

module _ (sha256 : String → String) (state : IncidentState) (now : ℕ)
    (output : InvestigatorOutput) where
  -- A tick whose reply has a hypothesis, before the attempts are used up, returns: the counter goes
  -- up by one; for each id the hypothesis written is the last proposed with it, else the last that
  -- was there; no id stands twice; and the focus is the id of one of the hypotheses written.
  pub investigator_node-IsTick :
      state.investigation_attempts < 5
      → output.hypotheses ≢ []
      → (u : InvestigatorUpdate) × (investigator_node sha256 state now (ok output) ≡ ok u)
        × IsTick sha256 state output u
  unfolding investigator_node after_reply
  investigator_node-IsTick early given =
      let proposed = map (ensure_id sha256) output.hypotheses in
      let focus = choose_focus output.current_focus_hypothesis_id proposed in
      let (h, e) = latest_of_contains focus proposed (
        choose_focus-Elem output.current_focus_hypothesis_id proposed
          (map-nonempty sha256 output.hypotheses given)) in
      (
        after_reply sha256 state now output,
        ground arith,
        record {
          counted = refl;
          merged = merge_hypotheses state.hypotheses proposed;
          written = refl;
          distinct = merge_hypotheses-IsDistinct state.hypotheses proposed;
          each = with_id-merge_hypotheses state.hypotheses proposed;
          focus = focus;
          focused = refl;
          focus_hypothesis = h;
          found = rw (with_id-merge_hypotheses state.hypotheses proposed focus, e) refl;
        },
      )
