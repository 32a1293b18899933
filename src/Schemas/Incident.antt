-- ===== src/Schemas/Incident.antt =====
-- agent/src/agent/schemas/{incident,collector,evidence}.py
use alph_e.Common.{ℕ, String, Bool, true, false, Option, List}

pub data Severity : Type 0 where
  critical high medium low : Severity

pub data HypothesisStatus : Type 0 where
  still_open confirmed refuted abandoned : HypothesisStatus

pub data IncidentPhase : Type 0 where
  intake investigating planning fixing verifying reviewing escalated resolved : IncidentPhase

pub data ActionType : Type 0 where
  query fix_attempt rollback scale flag_flip notification no_op : ActionType

pub data ActionStatus : Type 0 where
  pending executing succeeded failed : ActionStatus

-- The values of `ActionType`, a `StrEnum`.
abbrev pub action_type_name : ActionType → String
action_type_name ActionType.query = "query"
action_type_name ActionType.fix_attempt = "fix_attempt"
action_type_name ActionType.rollback = "rollback"
action_type_name ActionType.scale = "scale"
action_type_name ActionType.flag_flip = "flag_flip"
action_type_name ActionType.notification = "notification"
action_type_name ActionType.no_op = "no_op"

-- The values of `Severity`, `HypothesisStatus` and `ActionStatus`.
abbrev pub severity_name : Severity → String
severity_name Severity.critical = "critical"
severity_name Severity.high = "high"
severity_name Severity.medium = "medium"
severity_name Severity.low = "low"

abbrev pub status_name : HypothesisStatus → String
status_name HypothesisStatus.still_open = "open"
status_name HypothesisStatus.confirmed = "confirmed"
status_name HypothesisStatus.refuted = "refuted"
status_name HypothesisStatus.abandoned = "abandoned"

abbrev pub action_status_name : ActionStatus → String
action_status_name ActionStatus.pending = "pending"
action_status_name ActionStatus.executing = "executing"
action_status_name ActionStatus.succeeded = "succeeded"
action_status_name ActionStatus.failed = "failed"

pub record TimeRange : Type 0 where
  pub start : ℕ
  pub end : ℕ

pub record EnvironmentFingerprint : Type 0 where
  pub cluster : String
  pub account : String
  pub region : String
  pub deploy_revision : String
  pub rollout_generation : String

pub record Finding : Type 0 where
  pub id : String
  pub collector_name : String
  pub question : String
  pub summary : String
  pub evidence_id : String
  pub confidence : ℕ
  pub suggested_followups : List String
  pub created_at : ℕ

pub record CollectorInput : Type 0 where
  pub incident_id : String
  pub question : String
  pub hypothesis_id : String
  pub time_range : TimeRange
  pub scope_services : List String
  pub environment_fingerprint : EnvironmentFingerprint
  pub max_internal_iterations : ℕ

pub record EvidenceRef : Type 0 where
  pub evidence_id : String
  pub storage_uri : String
  pub content_type : String
  pub size_bytes : ℕ
  pub expires_at : ℕ

pub record CollectorOutput : Type 0 where
  pub finding : Finding
  pub evidence : EvidenceRef
  pub tool_calls_used : ℕ
  pub tokens_used : ℕ

pub record Alert : Type 0 where
  pub source : String
  pub raw_message : String
  pub service : String
  pub severity : Severity
  pub fired_at : ℕ
  pub labels : List (String × String)

pub record Hypothesis : Type 0 where
  pub id : String
  pub text : String
  pub score : ℕ
  pub status : HypothesisStatus
  pub supporting_evidence_ids : List String
  pub refuting_evidence_ids : List String
  pub created_at : ℕ

pub record TimelineEvent : Type 0 where
  pub ts : ℕ
  pub actor : String
  pub event_type : String
  pub ref_id : Option String

-- `str | int | bool`; `minus n` is the integer -(n + 1).
pub data ParamValue : Type 0 where
  text : String → ParamValue
  plus minus : ℕ → ParamValue
  flag : Bool → ParamValue

abbrev pub Params : Type 0
Params = List (String × ParamValue)

pub record ActionIntent : Type 0 where
  pub hash : String
  pub action_type : ActionType
  pub target : String
  pub parameters : Params
  pub expected_effect : String
  pub rollback_hint : String
  pub signer : String
  pub signature : String
  pub approval_status : String
  pub approved_by : Option String
  pub approved_at : Option ℕ
  pub expires_at : ℕ

pub record Action : Type 0 where
  pub id : String
  pub type : ActionType
  pub description : String
  pub status : ActionStatus
  pub intent_hash : Option String
  pub ref_id : Option String
  pub executed_at : Option ℕ

pub record IncidentState : Type 0 where
  pub incident_id : String
  pub alert : Alert
  pub hypotheses : List Hypothesis
  pub findings : List Finding
  pub timeline : List TimelineEvent
  pub actions_taken : List Action
  pub action_intents : List ActionIntent
  pub services_touched : List String
  pub current_focus_hypothesis_id : Option String
  pub investigation_attempts : ℕ
  pub phase : IncidentPhase
  pub created_at : ℕ
  pub updated_at : ℕ

-- `h.status == "confirmed"`
abbrev pub is_confirmed : Hypothesis → Bool
is_confirmed h = elim h.status [ confirmed ↦ true | _ ↦ false ]

-- `h.status == "open"`
abbrev pub is_open : Hypothesis → Bool
is_open h = elim h.status [ still_open ↦ true | _ ↦ false ]

-- `h.status in ("refuted", "abandoned")`
abbrev pub is_negative : Hypothesis → Bool
is_negative h = elim h.status [ refuted ↦ true | abandoned ↦ true | _ ↦ false ]

-- `a.type == ActionType.rollback`
abbrev pub is_rollback_action : Action → Bool
is_rollback_action a = elim a.type [ ActionType.rollback ↦ true | _ ↦ false ]
