-- ===== src/Routing.antt =====
-- agent/src/agent/orchestrator/routing.py
pub mod Laws
use alph_e.Common.{ℕ, String, Bool, any, leb, if◌then◌else◌}
use alph_e.Schemas.{
  IncidentState, RemediationPlan, RemediationType, VerifierResult, VerifierResultKind, is_confirmed,
}

abbrev pub max_investigation_attempts : ℕ
max_investigation_attempts = 5

abbrev pub node_investigator : String
node_investigator = "investigator"

abbrev pub node_collectors : String
node_collectors = "collectors"

abbrev pub node_planner : String
node_planner = "planner"

abbrev pub node_dev : String
node_dev = "dev"

abbrev pub node_reviewer : String
node_reviewer = "reviewer"

abbrev pub node_coordinator : String
node_coordinator = "coordinator"

unfoldable pub route_after_investigator : IncidentState → String
route_after_investigator state =
    if leb max_investigation_attempts state.investigation_attempts
    then node_coordinator
    else if any is_confirmed state.hypotheses
    then node_planner
    else node_collectors

unfoldable pub route_after_planner : RemediationPlan → String
route_after_planner plan = elim plan.type [ RemediationType.pr ↦ node_dev | _ ↦ node_coordinator ]

unfoldable pub route_after_verifier : VerifierResult → String
route_after_verifier result = elim result.kind [
  | VerifierResultKind.passed ↦ node_reviewer
  | VerifierResultKind.implementation_error ↦ node_dev
  | VerifierResultKind.diagnosis_invalidated ↦ node_investigator
]

unfoldable pub route_after_reviewer : Bool → String
route_after_reviewer challenges_root_cause =
    if challenges_root_cause then node_investigator else node_dev
