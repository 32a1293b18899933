-- ===== src/Planner/Message.antt =====
-- `_build_user_message` of agent/src/agent/orchestrator/nodes/planner.py. The text of a float is an
-- argument.
use alph_e.Common.{ℕ, String, ◌<>◌, [], ◌∷◌, Value, dumps, object_of, array_of, fields_of, each}
use alph_e.Schemas.{
  IncidentState, Hypothesis, Finding, Action, severity_name, status_name, action_type_name,
  action_status_name,
}

unfoldable pub planner_hypothesis : Hypothesis → Value
unfolding fields_of
planner_hypothesis h = object_of (
    ("id", Value.text h.id)
    ∷ ("text", Value.text h.text)
    ∷ ("score", Value.float h.score)
    ∷ ("status", Value.text (status_name h.status))
    ∷ [])

unfoldable pub planner_finding : Finding → Value
unfolding fields_of
planner_finding f = object_of (
    ("collector_name", Value.text f.collector_name)
    ∷ ("summary", Value.text f.summary)
    ∷ ("evidence_id", Value.text f.evidence_id)
    ∷ ("confidence", Value.float f.confidence)
    ∷ [])

unfoldable pub planner_action : Action → Value
unfolding fields_of
planner_action a = object_of (
    ("type", Value.text (action_type_name a.type))
    ∷ ("description", Value.text a.description)
    ∷ ("status", Value.text (action_status_name a.status))
    ∷ [])

unfoldable pub planner_payload : IncidentState → Value
unfolding fields_of each planner_hypothesis planner_finding planner_action
planner_payload state = object_of (
    ("incident_id", Value.text state.incident_id)
    ∷ (
      "alert",
      object_of (
          ("service", Value.text state.alert.service)
          ∷ ("severity", Value.text (severity_name state.alert.severity))
          ∷ ("raw_message", Value.text state.alert.raw_message)
          ∷ []),
    )
    ∷ ("hypotheses", array_of planner_hypothesis state.hypotheses)
    ∷ ("findings", array_of planner_finding state.findings)
    ∷ ("services_touched", array_of Value.text state.services_touched)
    ∷ ("actions_taken", array_of planner_action state.actions_taken)
    ∷ [])

unfoldable pub planner_message : (ℕ → String) → IncidentState → String
unfolding dumps planner_payload
planner_message float_text state =
    "Here is the current incident state. Produce a RemediationPlan and, for mutable actions, the required ActionIntent fields.\n\n```json\n"
    <> dumps float_text 0 (planner_payload state)
    <> "\n```"
