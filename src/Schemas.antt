-- ===== src/Schemas.antt =====
-- agent/src/agent/schemas: the data of the program. A time is a number of microseconds since year
-- one. A score or confidence is a float from 0 to 1, given exactly as the numerator of n / 2^1074.
-- The ranges that pydantic checks when a model of an incident is built stand in Bounds.
mod Incident
mod Remediation
mod Bounds
pub use Incident.{
  Severity, ParamValue, critical, high, medium, low, HypothesisStatus, still_open, confirmed,
  refuted, abandoned, IncidentPhase, ActionType, ActionStatus, Alert, Hypothesis, TimelineEvent,
  Params, ActionIntent, Action, IncidentState, TimeRange, EnvironmentFingerprint, Finding,
  CollectorInput, CollectorOutput, EvidenceRef, is_confirmed, is_open, is_negative,
  action_type_name, severity_name, status_name, action_status_name, is_rollback_action,
}
pub use Remediation.{
  RemediationType, RemediationPlan, FileChange, FixProposal, VerifierResultKind, VerifierResult,
  EscalationPackage, BlockedReport, ReviewDecision, ReviewerOutput,
}
unfoldable pub use Bounds.{
  max_score, accepts_hypothesis, accepts_finding, accepts_collector_output, accepts_state,
}
