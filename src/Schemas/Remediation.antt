-- ===== src/Schemas/Remediation.antt =====
-- agent/src/agent/schemas/{remediation,verifier,escalation}.py and the reviewer's part of
-- agent/src/agent/orchestrator/nodes/_models.py
use alph_e.Common.{ℕ, String, Bool, List}
use alph_e.Schemas.Incident.{Finding, Hypothesis}

pub data RemediationType : Type 0 where
  pr rollback scale flag_flip runbook none : RemediationType

pub record RemediationPlan : Type 0 where
  pub id : String
  pub type : RemediationType
  pub rationale : String
  pub evidence_ids : List String
  pub target_repos : List String
  pub target_services : List String
  pub rollback_plan : String
  pub confidence : ℕ
  pub requires_human_approval : Bool

pub record FileChange : Type 0 where
  pub repo : String
  pub path : String
  pub diff : String

pub record FixProposal : Type 0 where
  pub id : String
  pub plan_id : String
  pub branch_name : String
  pub changes : List FileChange
  pub commit_message : String
  pub pr_body : String

pub data VerifierResultKind : Type 0 where
  passed implementation_error diagnosis_invalidated : VerifierResultKind

pub record VerifierResult : Type 0 where
  pub kind : VerifierResultKind
  pub checks_run : List String
  pub failures : List String
  pub dry_run_output : String
  pub reasoning : String

pub record EscalationPackage : Type 0 where
  pub incident_id : String
  pub hypotheses_considered : List Hypothesis
  pub key_findings : List Finding
  pub attempts : List RemediationPlan
  pub attempt_failure_reasons : List String
  pub current_working_theory : String
  pub suggested_next_steps : List String

pub record BlockedReport : Type 0 where
  pub work_item_id : String
  pub what_was_tried : List String
  pub what_failed : List String
  pub decision_needed : String
  pub partial_artifacts : List String

pub data ReviewDecision : Type 0 where
  approve request_changes_on_fix challenge_root_cause : ReviewDecision

pub record ReviewerOutput : Type 0 where
  pub decision : ReviewDecision
  pub reasoning : String
  pub cited_evidence_ids : List String
