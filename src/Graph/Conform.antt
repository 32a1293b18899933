-- ===== src/Graph/Conform.antt =====
-- Every state of a run conforms to the schema of an incident, if the replies that it merges do.
use mathlib.Core.Path.{subst}
use alph_e.Common.{
  ℕ, String, ◌≡◌, refl, Option, none, true, false, List, [], ◌∷◌, ◌++◌, Result, ok, err, arith,
  Supply, IsDistinct, all, leb, inl, inr, Bool-cases, Option-cases, get_or,
}
use alph_e.Schemas.{
  IncidentState, Hypothesis, Finding, accepts_hypothesis, accepts_finding, accepts_state,
}
use alph_e.Llm.{LlmError}
use alph_e.Investigator.{
  InvestigatorOutput, InvestigatorUpdate, investigator_event, investigator_node, after_reply, ids,
  max_attempts,
}
use alph_e.Investigator.Merge.{merge_hypotheses-IsDistinct}
use alph_e.Collectors.{Services, CollectorsUpdate, collectors_node, focus_hypothesis}
use alph_e.Collectors.Dispatch.{Cache}
use alph_e.Collectors.Outcome.{finding_ids, collectors_node-IsCollected, merge_finding_lem}
use alph_e.Investigator.Accepted.{has_focus, all-merge_hypotheses, all-ensure_id, tick-focused}
use alph_e.Collectors.Accepted.{GivesAccepted, accepted-merge_finding, accepted-Source}
use alph_e.Graph.{
  World, Step, Run, at_intake, at_investigator, at_collectors, at_planner, at_coordinator, stay,
  step, successor, intake_node, investigated, collected,
}

-- The fields of an incident as its schema and the nodes keep them.
pub record Conforms (hypotheses : List Hypothesis) (findings : List Finding) (focus : Option String)
    (count : ℕ) : Type 0 where
  pub accepted_hypotheses : all accepts_hypothesis hypotheses ≡ true
  pub accepted_findings : all accepts_finding findings ≡ true
  pub hypotheses_distinct : IsDistinct (ids hypotheses)
  pub findings_distinct : IsDistinct (finding_ids findings)
  pub focused : has_focus focus hypotheses ≡ true
  pub attempts : leb count max_attempts ≡ true

abbrev pub IsConforming : IncidentState → Type 0
IsConforming s =
    Conforms s.hypotheses s.findings s.current_focus_hypothesis_id s.investigation_attempts

accepted-after_reply :
    (sha256 : String → String) (s : IncidentState) (now : ℕ) (output : InvestigatorOutput)
    → leb max_attempts s.investigation_attempts ≡ false
    → IsConforming s
    → all accepts_hypothesis output.hypotheses ≡ true
    → IsConforming (investigated s (after_reply sha256 s now output))
unfolding after_reply
accepted-after_reply sha256 s now output early c accepted = record {
  accepted_hypotheses =
      all-merge_hypotheses accepts_hypothesis s.hypotheses _ c.accepted_hypotheses
        (all-ensure_id sha256 output.hypotheses accepted);
  accepted_findings = c.accepted_findings;
  hypotheses_distinct = merge_hypotheses-IsDistinct s.hypotheses _;
  findings_distinct = c.findings_distinct;
  focused = tick-focused sha256 s now output _ early refl;
  attempts = ground (arith, early);
}

written-IsConforming :
    (s : IncidentState) (u : CollectorsUpdate)
    → IsConforming s
    → all accepts_finding (get_or u.findings s.findings) ≡ true
    → IsDistinct (finding_ids (get_or u.findings s.findings))
    → IsConforming (collected s u)
written-IsConforming s u c a d = record {
  accepted_hypotheses = c.accepted_hypotheses;
  accepted_findings = a;
  hypotheses_distinct = c.hypotheses_distinct;
  findings_distinct = d;
  focused = c.focused;
  attempts = c.attempts;
}

collected-IsConforming :
    (services : Services) (s : IncidentState) (rows : Option Cache) (supply : Supply)
    → GivesAccepted services rows
    → IsConforming s
    → IsConforming (collected s (collectors_node services s rows supply).0.0)
unfolding collectors_node
collected-IsConforming services s rows supply given c =
    written-IsConforming s (collectors_node services s rows supply).0.0 c merged.0 merged.1
  where
    merged :
        (all accepts_finding
            (get_or (collectors_node services s rows supply).0.0.findings s.findings)
          ≡ true)
        × IsDistinct
            (finding_ids (get_or (collectors_node services s rows supply).0.0.findings s.findings))
    merged = elim (Option-cases (focus_hypothesis s)) [
      | inl lost ↦ rw (lost, collectors_node) (c.accepted_findings, c.findings_distinct)
      | inr (h, found) ↦
          let done = collectors_node-IsCollected services s rows supply h found in
          rw done.findings (
            accepted-merge_finding s.findings done.finding c.accepted_findings
                (accepted-Source services rows _ done.finding _ given done.source),
            (merge_finding_lem s.findings done.finding c.findings_distinct).0,
          )
    ]

-- The hypotheses of a reply conform to their schema.
abbrev pub GivesHypotheses : Result LlmError InvestigatorOutput → Type 0
GivesHypotheses (ok output) = all accepts_hypothesis output.hypotheses ≡ true
GivesHypotheses (err e) = Unit

investigated-IsConforming :
    (sha256 : String → String) (s : IncidentState) (now : ℕ)
    (reply : Result LlmError InvestigatorOutput) (u : InvestigatorUpdate)
    → investigator_node sha256 s now reply ≡ ok u
    → GivesHypotheses reply
    → IsConforming s
    → IsConforming (investigated s u)
unfolding investigator_node
investigated-IsConforming sha256 s now reply u e given c =
    elim (Bool-cases (leb max_attempts s.investigation_attempts)) [
      | inl late ↦
          subst (λ v. IsConforming (investigated s v)) {x = resting} {y = u}
            (ground (arith, late, e)) c
      | inr early ↦ go reply refl early
    ]
  where
    resting : InvestigatorUpdate
    resting = record {
      hypotheses = none;
      current_focus_hypothesis_id = none;
      investigation_attempts = s.investigation_attempts;
      timeline = s.timeline ++ investigator_event now "investigator.cap_reached" ∷ [];
      updated_at = now;
    }

    go :
        (r : Result LlmError InvestigatorOutput)
        → reply ≡ r
        → leb max_attempts s.investigation_attempts ≡ false
        → IsConforming (investigated s u)
    go (err x) q early = absurd (ground (arith, early, q, e))
    go (ok output) q early =
        subst (λ v. IsConforming (investigated s v)) {x = after_reply sha256 s now output} {y = u}
          (ground (arith, early, q, e))
          (accepted-after_reply sha256 s now output early c (subst GivesHypotheses q given))

module _ (world : World) where
  -- What the model and the services give in a step conforms.
  abbrev pub Given : {node : String} {s t : IncidentState} → Step world node s t → Type 0
  Given (at_intake s now) = Unit
  Given (at_investigator s now reply u e) = GivesHypotheses reply
  Given (at_collectors s services rows supply) = GivesAccepted services rows
  Given (at_planner s now reply u e) = Unit
  Given (at_coordinator s supply u e) = Unit

  abbrev pub AllGiven :
      {n : ℕ} {place last : Option String} {s t : IncidentState}
      → Run world n place s last t
      → Type 0
  AllGiven (stay place s) = Unit
  AllGiven (step n node s t last u now rest) = Given now × AllGiven rest

  Step-IsConforming :
      (node : String) (s t : IncidentState) (now : Step world node s t)
      → Given now
      → IsConforming s
      → IsConforming t
  unfolding intake_node
  Step-IsConforming _ _ _ (at_intake s now) given c = c
  Step-IsConforming _ _ _ (at_investigator s now reply u e) given c =
      investigated-IsConforming _ s now reply u e given c
  Step-IsConforming _ _ _ (at_collectors s services rows supply) given c =
      collected-IsConforming services s rows supply given c
  Step-IsConforming _ _ _ (at_planner s now reply u e) given c = c
  Step-IsConforming _ _ _ (at_coordinator s supply u e) given c = c

  run-Conforms :
      (n : ℕ) (place : Option String) (s : IncidentState) (last : Option String) (t : IncidentState)
      (run : Run world n place s last t)
      → AllGiven run
      → IsConforming s
      → IsConforming t
  run-Conforms _ _ _ _ _ (stay place s) given c = c
  run-Conforms _ _ _ _ _ (step n node s t last u now rest) given c =
      run-Conforms n (successor node t) t last u rest given.1
        (Step-IsConforming node s t now given.0 c)

  -- If the hypotheses of the model's replies, the answers of the collectors and the rows of the
  -- cache conform to the schemas, then a run of any length, from any node and from a conforming
  -- incident, ends in one that the schema accepts and that conforms: scores and confidences at most one, no id of a hypothesis
  -- or of a finding twice, a focus that is none, empty or the id of a hypothesis, and at most five
  -- attempts.
  pub run-IsConforming :
      (n : ℕ) (place : Option String) (s : IncidentState) (last : Option String) (t : IncidentState)
      (run : Run world n place s last t)
      → AllGiven run
      → IsConforming s
      → (accepts_state t ≡ true) × IsConforming t
  unfolding accepts_state
  run-IsConforming n place s last t run given c =
      let d = run-Conforms n place s last t run given c in
      (ground (arith, d.accepted_hypotheses, d.accepted_findings), d)
