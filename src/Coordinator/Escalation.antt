-- ===== src/Coordinator/Escalation.antt =====
-- agent/src/agent/orchestrator/coordinator/escalation.py
use Prim.Native.String.{◌++◌}
use mathlib.Core.List
use alph_e.Common.{
  String, Option, Bool, List, [], ◌∷◌, map, filter, take, nonempty, score_text, joined, ltb, get_or,
  if◌then◌else◌,
}
use alph_e.Schemas.{
  IncidentState, Hypothesis, Action, EscalationPackage, is_confirmed, is_open, is_rollback_action,
}

-- `sorted(…, key=score, reverse=True)` keeps the order of equal scores.
insert_by_score : Hypothesis → List Hypothesis → List Hypothesis
insert_by_score h [] = h ∷ []
insert_by_score h (k ∷ rest) =
    if ltb h.score k.score then k ∷ insert_by_score h rest else h ∷ k ∷ rest

unfoldable pub sorted_by_score : List Hypothesis → List Hypothesis
unfolding insert_by_score
sorted_by_score [] = []
sorted_by_score (h ∷ hs) = insert_by_score h (sorted_by_score hs)

working_theory : IncidentState → List Hypothesis → List Hypothesis → String
working_theory state (h ∷ _) _ =
    "Confirmed root cause: "
    ++ (h.text
        ++ (" (score="
            ++ (score_text h.score
                ++ "). Automated remediation was not possible; human action required.")))
working_theory state [] (h ∷ _) =
    "Most likely root cause (unconfirmed): "
    ++ (h.text
        ++ (" (score="
            ++ (score_text h.score ++ "). Further investigation is needed before remediation.")))
working_theory state [] [] =
    "No hypothesis was confirmed during automated investigation. Alert: "
    ++ (state.alert.raw_message ++ (" (service=" ++ (state.alert.service ++ ").")))

review_step : List Hypothesis → List String
review_step [] = []
review_step (h ∷ _) = ("Review confirmed hypothesis: " ++ h.text) ∷ []

open_step : Hypothesis → String
open_step h =
    "Investigate open hypothesis: " ++ (h.text ++ (" (score=" ++ (score_text h.score ++ ")")))

-- a list of one step under a condition
abbrev when : Bool → String → List String
when b s = if b then s ∷ [] else []

next_steps :
    IncidentState
    → List Hypothesis
    → List Hypothesis
    → List String
    → List Action
    → List String
    → List String
unfolding review_step open_step
next_steps state confirmed open_hyps reasons actions extra = List.◌++◌ (review_step confirmed) (
    List.◌++◌ (map open_step (take 2 open_hyps)) (
      List.◌++◌ (when (nonempty reasons) "Review automated attempt failure reasons listed above.") (
        List.◌++◌
          (when (nonempty state.services_touched)
            ("Inspect recently touched services: " ++ joined ", " state.services_touched))
          (List.◌++◌
            (when (nonempty (filter is_rollback_action actions))
              "A compensating rollback was performed — verify the system returned to a known-good state.")
            extra))))

abbrev or_manual : List String → List String
or_manual [] = "Manually review the incident timeline and alert labels." ∷ []
or_manual (s ∷ steps) = s ∷ steps

-- `None` for the reasons and for the extra steps is the empty list.
unfoldable pub build_escalation_package :
    IncidentState → List String → List String → Option (List Action) → EscalationPackage
unfolding working_theory next_steps
build_escalation_package state reasons extra actions_taken =
    let confirmed = sorted_by_score (filter is_confirmed state.hypotheses) in
    let open_hyps = sorted_by_score (filter is_open state.hypotheses) in
    let effective = get_or actions_taken state.actions_taken in
    record {
      incident_id = state.incident_id;
      hypotheses_considered = state.hypotheses;
      key_findings = state.findings;
      attempts = [];
      attempt_failure_reasons = reasons;
      current_working_theory = working_theory state confirmed open_hyps;
      suggested_next_steps =
          or_manual (next_steps state confirmed open_hyps reasons effective extra);
    }
