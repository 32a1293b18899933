-- ===== src/Coordinator/Preflight.antt =====
-- agent/src/agent/orchestrator/coordinator/preflight.py
pub mod Table
use alph_e.Common.{String, Bool, not, ◌&&◌, List, filter, any, all, nonempty, if◌then◌else◌}
use alph_e.Schemas.{IncidentState, ActionIntent, Hypothesis, is_confirmed, is_negative}

pub data PreflightOutcome : Type 0 where
  ok diagnosis_invalidated parameter_drift already_resolved : PreflightOutcome

-- the values of the `StrEnum`
abbrev pub outcome_name : PreflightOutcome → String
outcome_name ok = "ok"
outcome_name diagnosis_invalidated = "diagnosis_invalidated"
outcome_name parameter_drift = "parameter_drift"
outcome_name already_resolved = "already_resolved"

pub record PreflightResult : Type 0 where
  pub outcome : PreflightOutcome
  pub reason : String

abbrev result : PreflightOutcome → String → PreflightResult
result o r = record { outcome = o; reason = r }

unfoldable pub check_preflight : IncidentState → List ActionIntent → PreflightResult
check_preflight state intents =
    if not (nonempty intents)
    then (if not (nonempty state.hypotheses)
        then result already_resolved
            "No action intents and no hypotheses — incident appears resolved."
        else result parameter_drift
            "No action intents present; routing to Planner for a fresh intent.")
    else if nonempty state.hypotheses && all is_negative state.hypotheses
    then result diagnosis_invalidated
        "All hypotheses are refuted or abandoned; the Planner's diagnosis no longer holds."
    else if not (nonempty (filter is_confirmed state.hypotheses)) && nonempty state.hypotheses
    then result parameter_drift
        "No confirmed hypothesis found at execution time; routing to Planner for fresh intent with current conditions."
    else if not (nonempty state.hypotheses)
    then result already_resolved "No hypotheses in state; incident appears to have self-resolved."
    else result ok "Preconditions satisfied; proceeding with execution."

-- The decision as a table over the hypotheses: with none the incident is resolved, whatever the
-- intents; with some and no intent the parameters drifted; else a confirmed hypothesis lets the
-- execution go on, and without one an incident with only negative hypotheses is invalidated.
abbrev pub preflight_table : List Hypothesis → Bool → PreflightOutcome
preflight_table hypotheses has_intents =
    if not (nonempty hypotheses)
    then already_resolved
    else if not has_intents
    then parameter_drift
    else if any is_confirmed hypotheses
    then ok
    else if all is_negative hypotheses
    then diagnosis_invalidated
    else parameter_drift
