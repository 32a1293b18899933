-- ===== src/Investigator/Message.antt =====
-- `_build_user_message` of agent/src/agent/orchestrator/nodes/investigator.py. The texts of floats and of
-- times are arguments.
use alph_e.Common.{ℕ, String, [], ◌∷◌, map, Value, dumps, object_of, array_of, fields_of, each}
use alph_e.Schemas.{IncidentState, Alert, Hypothesis, Finding, severity_name, status_name}

-- a member of `findings_payload`
unfoldable pub finding_json : Finding → Value
unfolding fields_of
finding_json f = object_of (
    ("id", Value.text f.id)
    ∷ ("collector", Value.text f.collector_name)
    ∷ ("question", Value.text f.question)
    ∷ ("summary", Value.text f.summary)
    ∷ ("confidence", Value.float f.confidence)
    ∷ [])

-- a member of `hypotheses_payload`
unfoldable pub hypothesis_json : Hypothesis → Value
unfolding fields_of each
hypothesis_json h = object_of (
    ("id", Value.text h.id)
    ∷ ("text", Value.text h.text)
    ∷ ("score", Value.float h.score)
    ∷ ("status", Value.text (status_name h.status))
    ∷ ("supporting_evidence_ids", array_of Value.text h.supporting_evidence_ids)
    ∷ ("refuting_evidence_ids", array_of Value.text h.refuting_evidence_ids)
    ∷ [])

module _ (isoformat : ℕ → String) where
  unfoldable pub alert_json : Alert → Value
  unfolding fields_of
  alert_json a = object_of (
      ("source", Value.text a.source)
      ∷ ("raw_message", Value.text a.raw_message)
      ∷ ("service", Value.text a.service)
      ∷ ("severity", Value.text (severity_name a.severity))
      ∷ ("fired_at", Value.text (isoformat a.fired_at))
      ∷ ("labels", object_of (map (λ entry. (entry.0, Value.text entry.1)) a.labels))
      ∷ [])

  unfoldable pub investigator_payload : IncidentState → Value
  unfolding fields_of each alert_json hypothesis_json finding_json
  investigator_payload state = object_of (
      ("incident_id", Value.text state.incident_id)
      ∷ ("investigation_attempts", Value.number state.investigation_attempts)
      ∷ ("alert", alert_json state.alert)
      ∷ ("existing_hypotheses", array_of hypothesis_json state.hypotheses)
      ∷ ("findings", array_of finding_json state.findings)
      ∷ [])

unfoldable pub investigator_message : (ℕ → String) → (ℕ → String) → IncidentState → String
unfolding dumps investigator_payload
investigator_message float_text isoformat state =
    dumps float_text 0 (investigator_payload isoformat state)
